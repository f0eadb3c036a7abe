-- ===== src/Block/Setup.antt =====
-- block_dev/sbd.c: sbd_init and sbd_exit, with the module's parameters and the objects it holds.
pub mod Resources
use kernel_examples.Prelude.{
  ℕ, zero, suc, ◌-◌, ◌^◌, ◌*◌, Bool, Option, none, some, List, if◌then◌else◌, ◌>>=◌,
}
use kernel_examples.Prelude.Int.{ℤ, pos, negsuc, ltb_ℤ}
use kernel_examples.Kernel.{
  Ledger, acquire, release, buffer, queue, blkdev, disk, u32, extend32, fail, enomem,
}
use kernel_examples.Block.{Device}

-- The module's variables; `gd_major` and `capacity` are what it writes to the gendisk.
pub record Module : Type 0 where
  pub major_num : ℤ
  pub logical_block_size : ℕ  -- the pattern of an int
  pub nsectors : ℕ  -- the pattern of an int
  pub device : Device
  pub gd_major : ℤ
  pub capacity : ℕ
  pub held : Ledger

-- What the kernel answers: memory with the bytes that are in it, whether there is a queue and a
-- gendisk, and the number that register_blkdev returns for the one asked for.
pub record Answers : Type 0 where
  pub vmalloc : ℕ → Option (List ℕ)
  pub blk_init_queue : Bool
  pub register_blkdev : ℤ → ℤ
  pub alloc_disk : Bool

-- The return code and the module afterwards; `none` is giving back what is not held.
abbrev pub Result : Type 0
Result = Option (ℤ × Module)

-- A major number as the unsigned int that the kernel takes it for.
abbrev pub major_key : ℤ → ℕ
major_key (pos n) = n
major_key (negsuc n) = 2 ^ 32 - n - 1

-- The number that register_blkdev registers: the one asked for, or, for 0, the one that it answers.
abbrev pub registered : ℤ → ℤ → ℕ
registered (pos zero) answer = major_key answer
registered (pos (suc n)) answer = suc n
registered (negsuc n) answer = major_key (negsuc n)

-- unregister_blkdev warns where nothing is registered under the number, and does no more.
abbrev pub unregister_blkdev : ℤ → Ledger → Ledger
unregister_blkdev major l = elim (release (blkdev (major_key major)) l) [ none ↦ l | some m ↦ m ]

-- label `out`
out : Module → Result
out m = do held ← release buffer m.held; some (fail enomem, record m { held = held })

-- label `out_unregister`
out_unregister : Module → Result
unfolding out
out_unregister m = out (record m { held = unregister_blkdev m.major_num m.held })

-- from `alloc_disk` on
with_major : Answers → Module → Result
unfolding out_unregister
with_major k m =
    if k.alloc_disk
    then some (
      pos 0,
      record m {
        gd_major = m.major_num;
        capacity = extend32 m.nsectors;
        held = acquire disk m.held;
      },
    )
    else out_unregister m

-- from `register_blkdev` on
with_queue : Answers → Module → Result
unfolding out with_major
with_queue k m =
    let major = k.register_blkdev m.major_num in
    let m' = record m { major_num = major } in
    if ltb_ℤ major (pos 0)
    then out m'
    else with_major k (record m' { held = acquire (blkdev (registered m.major_num major)) m.held })

-- from `blk_init_queue` on
with_memory : Answers → Module → Result
unfolding out with_queue
with_memory k m =
    if k.blk_init_queue then with_queue k (record m { held = acquire queue m.held }) else out m

pub sbd_init : Answers → Module → Result
unfolding with_memory
sbd_init k m =
    let size = extend32 (u32 (m.nsectors * m.logical_block_size)) in
    elim (k.vmalloc size) [
      | none ↦
          some (fail enomem, record m { device = record { size = size; bytes = m.device.bytes } })
      | some bytes ↦ with_memory k (record m {
        device = record { size = size; bytes = bytes };
        held = acquire buffer m.held;
      })
    ]

-- del_gendisk and put_disk give back the one reference to the disk.
unfoldable pub sbd_exit : Module → Option Ledger
sbd_exit m = do
  l ← release disk m.held
  l ← release queue (unregister_blkdev m.major_num l)
  release buffer l
