-- ===== src/Block/Lifetime/BlockSize.antt =====
-- block_dev/sbd.c: with blocks of more than 512 bytes. The block layer counts in sectors of 512 bytes
-- always; the driver takes the numbers for blocks.
use native.Mathlib.Nat.{
  le-mul_of_pos_right, mul-le-mul_left, mul-le-mul_right, mul_comm, mod-eq_of_lt,
}
use kernel_examples.Prelude.{
  ℕ, suc, ◌+◌, ◌*◌, ◌^◌, ◌≤◌, ◌<◌, ◌≡◌, arith, true, none, some, length, leb, lt→leb, le→ltb,
  Bool-cases, inl, inr,
}
use kernel_examples.Prelude.Int.{pos}
use kernel_examples.Block.{Device, transfer}
use kernel_examples.Block.Transfer.{byte_count_exact}
use kernel_examples.Block.Request.{Segment, BlockLayer, faulted, sbd_request}
use kernel_examples.Block.Request.Serve.{sbd_request_faults}
use kernel_examples.Block.Setup.{Module, Answers, sbd_init}
use kernel_examples.Block.Setup.Resources.{grants}
use kernel_examples.Block.Lifetime.{IsWithin, IsAllocator, IsSized}
use kernel_examples.Block.Lifetime.Serves.{granted-IsLoaded}

-- A copy of more bytes than the buffer has.
transfer_overruns :
    (lbs : ℕ) (s : Segment) (dev : Device)
    → lbs < 2 ^ 31
    → s.pos * lbs + s.sectors * lbs < 2 ^ 64
    → s.pos * lbs + s.sectors * lbs ≤ dev.size
    → length s.buffer < s.sectors * lbs
    → transfer lbs dev s.pos s.sectors s.buffer s.write ≡ none
unfolding transfer
transfer_overruns lbs s dev small no_wrap inside short =
    rw
      (
        byte_count_exact lbs s.pos small (omega arith),
        byte_count_exact lbs s.sectors small (omega arith),
        mod-eq_of_lt no_wrap,
        le→ltb dev.size (s.pos * lbs + s.sectors * lbs) inside,
        lt→leb (0 + s.sectors * lbs) (length s.buffer) (omega arith),
      )
      (elim (Bool-cases s.write) [
        | inr reads ↦ rw reads
        | inl writes ↦ elim (Bool-cases (leb (s.pos * lbs + s.sectors * lbs) (length dev.bytes))) [
          | inl room ↦ rw (writes, room)
          | inr no_room ↦ rw (writes, no_room)
        ]
      ])

-- The segment lies on the disk, but its bytes do not fill the range that the driver copies.
module _ (m : Module) (sized : IsSized m) (large : 512 < m.logical_block_size) (s : Segment)
    (within : IsWithin m.nsectors s) where
  block_small : m.logical_block_size < 2 ^ 31
  block_small =
      let one : m.logical_block_size ≤ m.logical_block_size * m.nsectors =
        le-mul_of_pos_right m.logical_block_size sized.some_sectors in
      let turned : m.logical_block_size * m.nsectors ≡ m.nsectors * m.logical_block_size =
        mul_comm m.logical_block_size m.nsectors in
      omega (arith, sized.int_size)

  range_inside :
      s.pos * m.logical_block_size + s.sectors * m.logical_block_size
      ≤ m.nsectors * m.logical_block_size
  range_inside =
      let scaled : (s.pos + s.sectors) * m.logical_block_size ≤ m.nsectors * m.logical_block_size =
        mul-le-mul_right m.logical_block_size within.ends in
      grind arith

  buffer_short : 1 ≤ s.sectors → length s.buffer < s.sectors * m.logical_block_size
  buffer_short some_bytes =
      let scaled : s.sectors * 513 ≤ s.sectors * m.logical_block_size =
        mul-le-mul_left s.sectors (omega arith) in
      omega (arith, within.filled)

-- The driver is loaded as before, but with blocks of more than 512 bytes. The first request that
-- comes, of at least one sector and within the capacity that the driver has set, makes it run past
-- the end of the buffer of the request.
pub sbd_init-overruns :
    (k : Answers) (m : Module) (layer : BlockLayer) (fuel : ℕ) (q q' : layer.Queue)
    (r : layer.Request)
    → grants k m ≡ true
    → IsAllocator k
    → IsSized m
    → 512 < m.logical_block_size
    → layer.fetch q ≡ (some r, q')
    → (layer.current r).is_fs ≡ true
    → IsWithin m.nsectors (layer.current r)
    → 1 ≤ (layer.current r).sectors
    → (m' : Module) × (sbd_init k m ≡ some (pos 0, m'))
      × (m'.capacity ≡ m.nsectors)
      × (sbd_request layer m.logical_block_size (suc fuel) q m'.device ≡ faulted)
sbd_init-overruns k m layer fuel q q' r granted alloc sized large fetched fs within some_sectors =
    let (m', (loads, held, number, capacity, size, valid)) =
      granted-IsLoaded k m alloc sized granted in
    let s = layer.current r in
    let range = range_inside m sized large s within in
    (
      m',
      loads,
      capacity,
      sbd_request_faults layer m.logical_block_size fuel q q' r m'.device fetched fs (
          transfer_overruns m.logical_block_size s m'.device (block_small m sized large s within)
            (omega (arith, sized.int_size)) (omega arith)
            (buffer_short m sized large s within some_sectors)),
    )
