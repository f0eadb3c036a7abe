-- ===== src/Block/Lifetime.antt =====
-- block_dev/sbd.c: the driver from its loading to its unloading, with the requests that the block
-- layer hands to it in between.
pub mod Serves
pub mod BlockSize
use kernel_examples.Prelude.{ℕ, ◌+◌, ◌*◌, ◌^◌, ◌≤◌, ◌<◌, ◌≡◌, some, List, [], ◌∷◌, ◌++◌, length}
use kernel_examples.Block.{Device, kernel_sector_size}
use kernel_examples.Block.Request.{
  Segment, BlockLayer, Outcome, returned, faulted, running, Served, sbd_request,
}
use kernel_examples.Block.Setup.{Module, Answers}

-- What the block layer keeps to, whose sectors have 512 bytes: a segment ends within the capacity of
-- the disk, and its buffer is as long as it says.
pub record IsWithin (capacity : ℕ) (s : Segment) : Type 0 where
  pub ends : s.pos + s.sectors ≤ capacity
  pub filled : length s.buffer ≡ s.sectors * kernel_sector_size

-- What vmalloc is relied on for: the memory that it gives is as large as was asked for.
abbrev pub IsAllocator : Answers → Type 0
IsAllocator k = (n : ℕ) (bytes : List ℕ) → k.vmalloc n ≡ some bytes → length bytes ≡ n

-- The parameters: a size of the disk that an int holds.
pub record IsSized (m : Module) : Type 0 where
  pub some_sectors : 1 ≤ m.nsectors
  pub some_bytes : 1 ≤ m.logical_block_size
  pub int_size : m.nsectors * m.logical_block_size < 2 ^ 31

-- What was served before, and what the next call serves.
abbrev pub behind : List Segment → Outcome Served → Outcome Served
behind done (returned (dev, more)) = returned (dev, done ++ more)
behind done faulted = faulted
behind done running = running

abbrev pub and_then : (Device → Outcome Served) → Outcome Served → Outcome Served
and_then next (returned (dev, done)) = behind done (next dev)
and_then next faulted = faulted
and_then next running = running

module _ (layer : BlockLayer) (lbs fuel : ℕ) where
  open layer use {Queue, pending}

  -- The kernel calls sbd_request each time that there is something in the queue.
  pub serve_queues : List Queue → Device → Outcome Served
  serve_queues [] dev = returned (dev, [])
  serve_queues (q ∷ qs) dev = and_then (serve_queues qs) (sbd_request layer lbs fuel q dev)

module _ (layer : BlockLayer) where
  open layer use {Queue, pending}

  -- All segments, in the order of the calls.
  abbrev pub all_pending : List Queue → List Segment
  all_pending [] = []
  all_pending (q ∷ qs) = pending q ++ all_pending qs
