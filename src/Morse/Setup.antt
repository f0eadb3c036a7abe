-- ===== src/Morse/Setup.antt =====
-- io_port/morse_io.c: morse_init and morse_exit. The answers of cdev_add, class_create and
-- device_create are not looked at, and they are taken to succeed.
pub mod Laws
use kernel_examples.Prelude.{ℕ, Bool, not, Option, none, some, ◌==◌, if◌then◌else◌, ◌>>=◌}
use kernel_examples.Prelude.Int.{ℤ, pos}
use kernel_examples.Kernel.{
  Ledger, acquire, release, region, cdev, cdev_memory, class, device, acquire_all, release_all,
  fail,
}

-- Whether there is a region and a cdev, and the major number in dev_id once the region is asked for.
pub record Answers : Type 0 where
  pub chrdev_region : Bool
  pub dev_major : ℕ
  pub cdev_alloc : Bool

pub record Driver : Type 0 where
  pub major_no : ℕ
  pub held : Ledger

abbrev pub minor_count : ℕ
minor_count = 3

abbrev pub loaded : Ledger → Ledger
loaded l =
    acquire_all device minor_count 0
      (acquire class (acquire cdev (acquire cdev_memory (acquire region l))))

pub morse_init : Answers → Driver → Option (ℤ × Driver)
morse_init k d =
    let numbered = (if d.major_no == 0 then record d { major_no = k.dev_major } else d) in
    if not k.chrdev_region
    then some (fail 1, numbered)
    else if not k.cdev_alloc
    then (do
      l ← release region (acquire region d.held)
      some (fail 1, record numbered { held = l }))
    else some (pos 0, record numbered { held = loaded d.held })

-- cdev_del drops the reference of cdev_init, and the kfree behind it gives back the memory.
pub morse_exit : Driver → Option Ledger
morse_exit d = do
  l ← release_all device minor_count 0 d.held
  l ← release class l
  l ← release cdev l
  l ← release cdev_memory l
  release region l
