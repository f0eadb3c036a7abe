-- ===== src/Block/Tests.antt =====
-- block_dev/sbd.c on a device of two sectors of four bytes.
use mathlib.Core.List.{Permᴰ}
use kernel_examples.Prelude.{
  ◌⊎◌, get_elem?, ℕ, ◌≡◌, refl, arith, true, false, Option, none, some, List, [], ◌∷◌, ◌++◌, length,
  get_elem?, ◌⊎◌, inl, inr, replicate, length-replicate, ap, sym, ◌∙◌, Bool, All,
}
use kernel_examples.Prelude.Int.{pos}
use kernel_examples.Kernel.{nothing, extend32}
use kernel_examples.Block.{Device, transfer}
use kernel_examples.Block.Transfer.{IsValid, IsSane}
use kernel_examples.Block.Request.{Segment, BlockLayer, returned, faulted, sbd_request}
use kernel_examples.Block.Disk.Session.{latest, Sees, sbd_request-disk}
use kernel_examples.Block.Disk.Order.{sbd_request-perm}
use kernel_examples.Block.Request.Serve.{serve_all, sbd_request-serve_all, sbd_request-faulted}
use kernel_examples.Block.Setup.{Module, Answers, sbd_init, sbd_exit}
use kernel_examples.Block.Disk.{fits}
use kernel_examples.Block.Lifetime.{IsWithin, IsAllocator, serve_queues, all_pending}
use kernel_examples.Block.Lifetime.Serves.{sbd_init-serves}
use kernel_examples.Block.Lifetime.BlockSize.{sbd_init-overruns}

abbrev disk : Device
disk = record { size = 8; bytes = 10 ∷ 11 ∷ 12 ∷ 13 ∷ 14 ∷ 15 ∷ 16 ∷ 17 ∷ [] }

abbrev fresh : List ℕ
fresh = 20 ∷ 21 ∷ 22 ∷ 23 ∷ []

abbrev blank : List ℕ
blank = 0 ∷ 0 ∷ 0 ∷ 0 ∷ []

disk-IsValid : IsValid disk
disk-IsValid = omega arith

fresh-IsSane : IsSane 4 1 1 fresh
fresh-IsSane = omega arith

blank-IsSane : IsSane 4 1 1 blank
blank-IsSane = omega arith

transfer_write :
    transfer 4 disk 1 1 fresh true ≡ some (record disk { bytes = 10 ∷ 11 ∷ 12 ∷ 13 ∷ fresh }, fresh)
unfolding transfer extend32
transfer_write = refl

-- A block layer whose queue is a list of requests, each a first segment and those behind it.
abbrev Chain : Type 0
Chain = Segment × List Segment

abbrev segments : List Chain → List Segment
segments [] = []
segments ((s, more) ∷ rest) = (s ∷ more) ++ segments rest

abbrev take_first : List Chain → Option Chain × List Chain
take_first [] = (none, [])
take_first (r ∷ q) = (some r, q)

abbrev advance : Chain → Option Chain
advance (s, []) = none
advance (s, t ∷ more) = some (t, more)

abbrev all_of : Chain → List Segment
all_of (s, more) = s ∷ more

take_first-none : (q q' : List Chain) → take_first q ≡ (none, q') → segments q ≡ []
take_first-none [] q' e = refl
take_first-none (r ∷ q) q' e = cc

take_first-some :
    (q q' : List Chain) (r : Chain)
    → take_first q ≡ (some r, q')
    → segments q ≡ all_of r ++ segments q'
take_first-some [] q' r e = cc
take_first-some ((s, more) ∷ q) q' r e = cc

advance-none : (r : Chain) → advance r ≡ none → all_of r ≡ r.0 ∷ []
advance-none (s, []) e = refl
advance-none (s, t ∷ more) e = cc

advance-some : (r r' : Chain) → advance r ≡ some r' → all_of r ≡ r.0 ∷ all_of r'
advance-some (s, []) r' e = cc
advance-some (s, t ∷ more) r' e = cc

abbrev lists : BlockLayer
lists = record {
  Queue = List Chain;
  Request = Chain;
  current = λ r. r.0;
  fetch = take_first;
  end_cur = advance;
  pending = segments;
  rest = all_of;
  fetch_none = take_first-none;
  fetch_some = take_first-some;
  end_cur_none = advance-none;
  end_cur_some = advance-some;
}

abbrev write_fresh : Segment
write_fresh = record { is_fs = true; pos = 1; sectors = 1; buffer = fresh; write = true }

abbrev read_back : Segment
read_back = record { is_fs = true; pos = 1; sectors = 1; buffer = blank; write = false }

abbrev scsi_command : Segment
scsi_command = record { is_fs = false; pos = 0; sectors = 0; buffer = []; write = false }

sbd_request-serve_all_example :
    sbd_request lists 4 5 ((write_fresh, read_back ∷ []) ∷ (read_back, []) ∷ []) disk
    ≡ serve_all 4 disk (write_fresh ∷ read_back ∷ read_back ∷ [])
sbd_request-serve_all_example =
    sbd_request-serve_all lists 4 5 ((write_fresh, read_back ∷ []) ∷ (read_back, []) ∷ []) disk
      (refl, (refl, (refl, tt))) (omega arith)

-- The second request is of another type.
sbd_request-faulted_example :
    sbd_request lists 4 3 ((write_fresh, []) ∷ (scsi_command, []) ∷ []) disk ≡ faulted
sbd_request-faulted_example =
    sbd_request-faulted lists 4 3 ((write_fresh, []) ∷ (scsi_command, []) ∷ []) disk
      (inr (refl, inl refl)) (omega arith)

abbrev write_first : Segment
write_first = record { is_fs = true; pos = 0; sectors = 1; buffer = fresh; write = true }

abbrev read_past_end : Segment
read_past_end = record {
  is_fs = true;
  pos = 1;
  sectors = 2;
  buffer = fresh ++ fresh;
  write = false;
}

-- The second segment reads what the first has written, and the third is dropped.
sbd_request-disk_example :
    (dev' : Device) × (done : List Segment) × (sbd_request lists 4 4
        ((write_fresh, read_back ∷ []) ∷ (read_past_end, []) ∷ [])
        disk
      ≡ returned (dev', done))
    × IsValid dev'
    × (dev'.size ≡ 8)
    × ((i : ℕ)
        → get_elem? dev'.bytes i
          ≡ latest 4 8 (write_fresh ∷ read_back ∷ read_past_end ∷ []) i (get_elem? disk.bytes i))
    × ((n : ℕ) (s : Segment)
        → get_elem? (write_fresh ∷ read_back ∷ read_past_end ∷ []) n ≡ some s
        → Sees 4 8 (get_elem? disk.bytes) (write_fresh ∷ read_back ∷ read_past_end ∷ []) done n s)
sbd_request-disk_example =
    sbd_request-disk lists 4 4 ((write_fresh, read_back ∷ []) ∷ (read_past_end, []) ∷ []) disk
      disk-IsValid (refl, (refl, (refl, tt))) (omega arith, (omega arith, (omega arith, tt)))
      (omega arith)

-- One request of two segments, and two requests in the other order.
sbd_request-perm_example :
    (dev' : Device) × (done : List Segment) × (done' : List Segment) × (sbd_request lists 4 3
        ((write_first, read_back ∷ []) ∷ [])
        disk
      ≡ returned (dev', done))
    × (sbd_request lists 4 3 ((read_back, []) ∷ (write_first, []) ∷ []) disk
        ≡ returned (dev', done'))
    × Permᴰ done done'
sbd_request-perm_example =
    sbd_request-perm lists lists 4 3 3 ((write_first, read_back ∷ []) ∷ [])
      ((read_back, []) ∷ (write_first, []) ∷ []) disk (Permᴰ.swap refl refl) disk-IsValid
      (refl, (refl, tt)) (omega arith, (omega arith, tt)) ((inr (inl (omega arith)), tt), (tt, tt))
      (omega arith) (omega arith)

abbrev module_loaded : Module
module_loaded = record {
  major_num = pos 0;
  logical_block_size = 512;
  nsectors = 1024;
  device = record { size = 0; bytes = [] };
  gd_major = pos 0;
  capacity = 0;
  held = nothing;
}

-- The major number 32 is asked for and granted, and there is no gendisk.
abbrev diskless : Answers
diskless = record {
  vmalloc = λ n. some [];
  blk_init_queue = true;
  register_blkdev = λ n. pos 0;
  alloc_disk = false;
}

abbrev numbered : Module
numbered = record module_loaded { major_num = pos 32 }

-- The kernel grants everything; what vmalloc gives is full of sevens.
abbrev granting : Answers
granting = record {
  vmalloc = λ n. some (replicate n 7);
  blk_init_queue = true;
  register_blkdev = λ n. pos 240;
  alloc_disk = true;
}

granting-IsAllocator : IsAllocator granting
granting-IsAllocator n bytes e =
    let same : replicate n 7 ≡ bytes = cc in ap length (sym same) ∙ length-replicate n 7

abbrev two_sectors : ℕ → Module
two_sectors lbs = record module_loaded { logical_block_size = lbs; nsectors = 2 }

-- The second sector of 512 bytes.
abbrev kernel_sector : Bool → Segment
kernel_sector write = record {
  is_fs = true;
  pos = 1;
  sectors = 1;
  buffer = replicate 512 9;
  write = write;
}

kernel_sector-IsWithin : (write : Bool) → IsWithin 2 (kernel_sector write)
kernel_sector-IsWithin write = record {
  ends = omega arith;
  filled = length-replicate {A = ℕ} 512 9;
}

abbrev write_then_read : List (List Chain)
write_then_read = ((kernel_sector true, []) ∷ []) ∷ ((kernel_sector false, []) ∷ []) ∷ []

sbd_init-serves_example :
    (m' : Module) × (dev' : Device) × (done : List Segment) × (sbd_init granting (two_sectors 512)
      ≡ some (pos 0, m'))
    × (m'.capacity ≡ 2)
    × (serve_queues lists 512 2 write_then_read m'.device ≡ returned (dev', done))
    × All (λ s. fits 512 m'.device.size s ≡ true) (all_pending lists write_then_read)
    × ((i : ℕ)
        → get_elem? dev'.bytes i
          ≡ latest 512 m'.device.size
              (all_pending lists write_then_read)
              i
              (get_elem? m'.device.bytes i))
    × ((n : ℕ) (s : Segment)
        → get_elem? (all_pending lists write_then_read) n ≡ some s
        → Sees 512 m'.device.size
            (get_elem? m'.device.bytes)
            (all_pending lists write_then_read)
            done
            n
            s)
    × (sbd_exit (record m' { device = dev' }) ≡ some nothing)
sbd_init-serves_example =
    sbd_init-serves granting (two_sectors 512) lists 2 write_then_read refl granting-IsAllocator
      (omega arith) refl (((refl, tt), omega arith), (((refl, tt), omega arith), tt))
      (kernel_sector-IsWithin true, (kernel_sector-IsWithin false, tt))
      (record {
        int = omega arith;
        none_at_zero = refl;
        answers_zero = λ asked e. absurd (asked refl);
      })

sbd_init-overruns_example :
    (m' : Module) × (sbd_init granting (two_sectors 1024) ≡ some (pos 0, m'))
    × (m'.capacity ≡ 2)
    × (sbd_request lists 1024 5 ((kernel_sector true, []) ∷ []) m'.device ≡ faulted)
sbd_init-overruns_example =
    sbd_init-overruns granting (two_sectors 1024) lists 4 ((kernel_sector true, []) ∷ []) []
      (kernel_sector true, []) refl granting-IsAllocator (omega arith) (omega arith) refl refl
      (kernel_sector-IsWithin true) (omega arith)
