-- ===== src/Char/Setup.antt =====
-- char_dev: my_init and my_exit of the three drivers, with the objects that each holds.
-- class_create and device_create are taken to succeed: the drivers do not look at what they return.
pub mod Laws
use kernel_examples.Prelude.{ℕ, Bool, true, false, not, Option, none, some, if◌then◌else◌, ◌>>=◌}
use kernel_examples.Prelude.Int.{ℤ, pos}
use kernel_examples.Kernel.{
  Ledger, acquire, release, region, cdev, cdev_memory, buffer, class, device, acquire_all,
  release_all, fail,
}

-- What the kernel grants.
pub record Answers : Type 0 where
  pub chrdev_region : Bool
  pub cdev_alloc : Bool
  pub kmalloc : Bool
  pub cdev_add : Bool

-- The pointers that the exit functions test, and what is held.
pub record Driver : Type 0 where
  pub my_cdev : Bool
  pub kbuf : Bool
  pub held : Ledger

abbrev acquire_if : Bool → Ledger → Ledger
acquire_if granted l = if granted then acquire buffer l else l

-- `none` is a null pointer that is used, or giving back what is not held.
abbrev pub Result : Type 0
Result = Option (ℤ × Driver)

-- kfree(kbuf), where it is not null.
abbrev release_if : Bool → Ledger → Option Ledger
release_if kbuf l = if kbuf then release buffer l else some l

-- Everything up to cdev_add, cdev_init included, once cdev_alloc has answered.
abbrev allocated : Answers → Driver → Driver
allocated k d = record {
  my_cdev = true;
  kbuf = k.kmalloc;
  held = acquire_if k.kmalloc (acquire cdev (acquire cdev_memory (acquire region d.held)));
}

-- mydynamic_udev.c makes `count` devices, 5 of them.
pub udev_init : ℕ → Answers → Driver → Result
udev_init count k d =
    if not k.chrdev_region
    then some (fail 1, d)
    else if not k.cdev_alloc
    then (do
      l ← release region (acquire region d.held)
      some (fail 1, record d { my_cdev = false; held = l }))
    else if not k.cdev_add
    then (do
      l ← release region (allocated k d).held
      some (fail 1, record { my_cdev = true; kbuf = k.kmalloc; held = l }))
    else some (
      pos 0,
      record {
        my_cdev = true;
        kbuf = k.kmalloc;
        held = acquire_all device count 0 (acquire class (allocated k d).held);
      },
    )

pub udev_exit : ℕ → Driver → Option Ledger
udev_exit count d = do
  l ← release_all device count 0 d.held
  l ← release class l
  l ← (if d.my_cdev then release cdev l else some l)
  l ← release region l
  release_if d.kbuf l

-- mydynamic.c. The error path of cdev_add gives back all but the memory of the cdev.
pub dynamic_init : Answers → Driver → Result
dynamic_init k d =
    if not k.chrdev_region
    then some (fail 1, d)
    else if not k.cdev_alloc
    then (do
      l ← release region (acquire region d.held)
      some (fail 1, record d { my_cdev = false; held = l }))
    else if not k.cdev_add
    then (do
      l ← release cdev (allocated k d).held
      l ← release region l
      l ← release_if k.kmalloc l
      some (fail 1, record { my_cdev = true; kbuf = k.kmalloc; held = l }))
    else some (pos 0, allocated k d)

pub dynamic_exit : Driver → Option Ledger
dynamic_exit d = do
  l ← (if d.my_cdev then release cdev d.held else some d.held)
  l ← release region l
  release_if d.kbuf l

-- mychar.c looks at no answer: cdev_init runs on the null pointer of a failed cdev_alloc.
pub mychar_init : Answers → Driver → Result
mychar_init k d =
    let with_kbuf = acquire_if k.kmalloc d.held in
    let with_region = if k.chrdev_region then acquire region with_kbuf else with_kbuf in
    if k.cdev_alloc
    then some (
      pos 0,
      record {
        my_cdev = true;
        kbuf = k.kmalloc;
        held = acquire cdev (acquire cdev_memory with_region);
      },
    )
    else none

-- kfree does nothing on a null pointer.
pub mychar_exit : Driver → Option Ledger
mychar_exit d = do l ← release cdev d.held; l ← release region l; release_if d.kbuf l
