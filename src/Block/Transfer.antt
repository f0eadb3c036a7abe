-- ===== src/Block/Transfer.antt =====
-- block_dev/sbd.c: what sbd_transfer does to the device and to the buffer.
use kernel_examples.Prelude.{
  ℕ, ◌+◌, ◌*◌, ◌^◌, ◌≤◌, ◌<◌, ◌≡◌, arith, Bool, true, false, some, List, length, blit, slice,
  lt→ltb, le→ltb, le→leb,
}
use native.Mathlib.Nat.{mod-eq_of_lt}
use kernel_examples.Kernel.{extend32_small}
use kernel_examples.Block.{Device, byte_count, transfer}

-- The device that sbd_init sets up: as many bytes as it says, and the sum of an offset and a
-- length inside it does not wrap.
pub record IsValid (dev : Device) : Type 0 where
  pub sized : length dev.bytes ≡ dev.size
  pub small : dev.size < 2 ^ 63

-- A request that no 64-bit product or sum wraps on, with a buffer that is long enough.
pub record IsSane (lbs sector nsect : ℕ) (buffer : List ℕ) : Type 0 where
  pub positive : lbs < 2 ^ 31
  pub no_wrap : sector * lbs + nsect * lbs < 2 ^ 64
  pub room : nsect * lbs ≤ length buffer

pub byte_count_exact : (lbs n : ℕ) → lbs < 2 ^ 31 → n * lbs < 2 ^ 64 → byte_count lbs n ≡ n * lbs
byte_count_exact lbs n h k = rw (extend32_small lbs h) (omega arith)

module _ {lbs sector nsect : ℕ} {buffer : List ℕ} (dev : Device)
    (sane : IsSane lbs sector nsect buffer) where
  abbrev offset : ℕ
  offset = sector * lbs

  abbrev nbytes : ℕ
  nbytes = nsect * lbs

  -- Past the end neither side changes.
  pub transfer_past_end :
      (write : Bool)
      → dev.size < sector * lbs + nsect * lbs
      → transfer lbs dev sector nsect buffer write ≡ some (dev, buffer)
  unfolding transfer
  transfer_past_end write h = rw (
    byte_count_exact lbs sector sane.positive (omega arith),
    byte_count_exact lbs nsect sane.positive (omega arith),
    mod-eq_of_lt sane.no_wrap,
    lt→ltb dev.size (offset + nbytes) h,
  )

  module _ (valid : IsValid dev) (inside : sector * lbs + nsect * lbs ≤ dev.size) where
    pub transfer_write_lem :
        transfer lbs dev sector nsect buffer true
        ≡ some (
          record dev { bytes = blit dev.bytes (sector * lbs) (slice 0 (nsect * lbs) buffer) },
          buffer,
        )
    unfolding transfer
    transfer_write_lem = rw (
      byte_count_exact lbs sector sane.positive (omega arith),
      byte_count_exact lbs nsect sane.positive (omega arith),
      mod-eq_of_lt sane.no_wrap,
      le→ltb dev.size (offset + nbytes) inside,
      le→leb (offset + nbytes) (length dev.bytes) (omega arith),
      le→leb (0 + nbytes) (length buffer) (omega (arith, sane.room)),
    )

    pub transfer_read_lem :
        transfer lbs dev sector nsect buffer false
        ≡ some (dev, blit buffer 0 (slice (sector * lbs) (nsect * lbs) dev.bytes))
    unfolding transfer
    transfer_read_lem = rw (
      byte_count_exact lbs sector sane.positive (omega arith),
      byte_count_exact lbs nsect sane.positive (omega arith),
      mod-eq_of_lt sane.no_wrap,
      le→ltb dev.size (offset + nbytes) inside,
      le→leb (0 + nbytes) (length buffer) (omega (arith, sane.room)),
      le→leb (offset + nbytes) (length dev.bytes) (omega arith),
    )
