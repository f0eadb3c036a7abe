-- ===== src/Block.antt =====
-- block_dev/sbd.c: the device and the handlers that the kernel calls on it.
-- `transfer` is sbd_transfer, `getgeo` is sbd_getgeo; the request loop is in Block/Request and
-- sbd_init and sbd_exit are in Block/Setup. The message that a handler prints is left out.
pub mod Request
pub mod Setup
pub mod Transfer
pub mod Storage
pub mod Disk
pub mod Lifetime
pub mod Capacity
mod Tests
use kernel_examples.Prelude.{
  ℕ, ◌+◌, ◌*◌, ◌/◌, ◌%◌, ◌^◌, Bool, Option, none, some, List, length, ltb, if◌then◌else◌, memcpy,
  ◌>>=◌,
}
use kernel_examples.Kernel.{u64, extend32}

-- `struct sbd_device`: the lock guards nothing that the driver does itself.
pub record Device : Type 0 where
  pub size : ℕ  -- unsigned long
  pub bytes : List ℕ

abbrev pub kernel_sector_size : ℕ
kernel_sector_size = 512

-- `logical_block_size` is an `int`, so both products carry its sign up to 64 bits and wrap there.
abbrev pub byte_count : ℕ → ℕ → ℕ
byte_count logical_block_size sectors = u64 (sectors * extend32 logical_block_size)

-- The new device and the new contents of the buffer; `none` is an access outside either.
pub transfer : ℕ → Device → ℕ → ℕ → List ℕ → Bool → Option (Device × List ℕ)
transfer logical_block_size dev sector nsect buffer write =
    let offset = byte_count logical_block_size sector in
    let nbytes = byte_count logical_block_size nsect in
    if ltb dev.size (u64 (offset + nbytes))
    then some (dev, buffer)
    else (if write
        then (do
          bytes ← memcpy dev.bytes offset buffer 0 nbytes
          some (record dev { bytes = bytes }, buffer))
        else (do filled ← memcpy buffer 0 dev.bytes offset nbytes; some (dev, filled)))

-- `struct hd_geometry`: an unsigned short, two unsigned chars and an unsigned long.
pub record Geometry : Type 0 where
  pub cylinders : ℕ
  pub heads : ℕ
  pub sectors : ℕ
  pub start : ℕ

-- `logical_block_size` is taken as positive; `(size & ~0x3f) >> 6` drops the last six bits.
pub getgeo : ℕ → Device → Geometry
getgeo logical_block_size dev =
    let size = u64 (dev.size * (logical_block_size / kernel_sector_size)) in
    record { cylinders = size / 2 ^ 6 % 2 ^ 16; heads = 4; sectors = 16; start = 0 }
