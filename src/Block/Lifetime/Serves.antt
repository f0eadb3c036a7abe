-- ===== src/Block/Lifetime/Serves.antt =====
-- block_dev/sbd.c: with blocks of 512 bytes the driver serves whatever is asked within its capacity.
use native.Mathlib.Nat.{le-mul_of_pos_right}
use kernel_examples.Prelude.{
  ℕ, ◌+◌, ◌*◌, ◌^◌, ◌≤◌, ◌<◌, ◌≡◌, refl, ap, ◌∙◌, arith, true, false, none, some, List, [], ◌∷◌,
  ◌++◌, length, get_elem?, All, le→leb, inl, inr, ◌⊎◌, sym, true-false, Option-cases, Bool-cases,
}
use kernel_examples.Prelude.Int.{pos, ltb_ℤ}
use kernel_examples.Kernel.{extend32, extend32_small}
use kernel_examples.Block.{Device, transfer}
use kernel_examples.Block.Transfer.{IsValid}
use kernel_examples.Block.Request.{
  Segment, BlockLayer, Outcome, returned, faulted, running, Served, note,
}
use kernel_examples.Block.Request.Serve.{serve_all, IsFs, sbd_request-serve_all}
use kernel_examples.Block.Disk.{fits, IsSaneSegment}
use kernel_examples.Block.Disk.Session.{latest, Sees, serve_all-Plays}
use kernel_examples.Block.Setup.{Module, Answers, sbd_init, sbd_exit}
use kernel_examples.Block.Setup.Resources.{
  wanted, grants, kept, loaded_held, IsRegistry, granted-Loads, exits,
}
use kernel_examples.Block.Lifetime.{
  IsWithin, IsAllocator, IsSized, serve_queues, behind, and_then, all_pending,
}

wanted_lem : (m : Module) → IsSized m → wanted m ≡ m.nsectors * m.logical_block_size
wanted_lem m sized =
    ap extend32 (omega (arith, sized.int_size))
    ∙ extend32_small (m.nsectors * m.logical_block_size) sized.int_size

-- A load that is granted has its major number.
accepted :
    (k : Answers) (m : Module)
    → grants k m ≡ true
    → ltb_ℤ (k.register_blkdev m.major_num) (pos 0) ≡ false
accepted k m granted = elim (Bool-cases (ltb_ℤ (k.register_blkdev m.major_num) (pos 0))) [
  | inr e ↦ e
  | inl e ↦ absurd (refused (Option-cases (k.vmalloc (wanted m))) e (Bool-cases k.blk_init_queue))
]
  where
    refused :
        (k.vmalloc (wanted m) ≡ none) ⊎ ((bytes : List ℕ) × (k.vmalloc (wanted m) ≡ some bytes))
        → ltb_ℤ (k.register_blkdev m.major_num) (pos 0) ≡ true
        → (k.blk_init_queue ≡ true) ⊎ (k.blk_init_queue ≡ false)
        → ⊥
    refused (inl mem) e q = true-false (sym granted ∙ rw (mem, grants))
    refused (inr (bytes, mem)) e (inl q) = true-false (sym granted ∙ rw (mem, grants, q, e))
    refused (inr (bytes, mem)) e (inr q) = true-false (sym granted ∙ rw (mem, grants, q))

behind-nil : (o : Outcome Served) → o ≡ behind [] o
behind-nil (returned (dev, done)) = refl
behind-nil faulted = refl
behind-nil running = refl

note-behind :
    (t : Segment) (done : List Segment) (o : Outcome Served)
    → note t (behind done o) ≡ behind (t ∷ done) o
note-behind t done (returned (dev, more)) = refl
note-behind t done faulted = refl
note-behind t done running = refl

note-and_then :
    (next : Device → Outcome Served) (t : Segment) (o : Outcome Served)
    → note t (and_then next o) ≡ and_then next (note t o)
note-and_then next t (returned (dev, done)) = note-behind t done (next dev)
note-and_then next t faulted = refl
note-and_then next t running = refl

-- One pass after another is one over all the segments.
serve_all-append :
    (lbs : ℕ) (dev : Device) (xs ys : List Segment)
    → serve_all lbs dev (xs ++ ys) ≡ and_then (λ d. serve_all lbs d ys) (serve_all lbs dev xs)
unfolding serve_all
serve_all-append lbs dev [] ys = behind-nil (serve_all lbs dev ys)
serve_all-append lbs dev (s ∷ xs) ys =
    elim (Option-cases (transfer lbs dev s.pos s.sectors s.buffer s.write)) [
      | inl fault ↦ rw (fault, serve_all)
      | inr (moved, e) ↦
          rw (e, serve_all)
            (ap (note (record s { buffer = moved.1 })) (serve_all-append lbs moved.0 xs ys)
              ∙ note-and_then (λ d. serve_all lbs d ys) (record s { buffer = moved.1 })
                  (serve_all lbs moved.0 xs))
    ]

and_then-ext :
    (f g : Device → Outcome Served) (o : Outcome Served)
    → ((d : Device) → f d ≡ g d)
    → and_then f o ≡ and_then g o
and_then-ext f g (returned (dev, done)) h = ap (behind done) (h dev)
and_then-ext f g faulted h = refl
and_then-ext f g running h = refl

module _ (layer : BlockLayer) (lbs fuel : ℕ) where
  open layer use {Queue, pending}

  serve_queues-serve_all :
      (qs : List Queue) (dev : Device)
      → All (λ q. All IsFs (pending q) × (length (pending q) < fuel)) qs
      → serve_queues layer lbs fuel qs dev ≡ serve_all lbs dev (all_pending layer qs)
  unfolding serve_queues serve_all
  serve_queues-serve_all [] dev h = refl
  serve_queues-serve_all (q ∷ qs) dev h =
      ap (and_then (serve_queues layer lbs fuel qs))
        (sbd_request-serve_all layer lbs fuel q dev h.0.0 h.0.1)
      ∙ and_then-ext _ _ (serve_all lbs dev (pending q)) (λ d. serve_queues-serve_all qs d h.1)
      ∙ sym (serve_all-append lbs dev (pending q) (all_pending layer qs))

module _ (k : Answers) (m : Module) (alloc : IsAllocator k) (sized : IsSized m) where
  -- What loading leaves, where it is granted.
  abbrev pub IsLoaded : Module → Type 0
  IsLoaded m' =
      (sbd_init k m ≡ some (pos 0, m'))
      × (m'.held ≡ loaded_held k m)
      × (m'.major_num ≡ k.register_blkdev m.major_num)
      × (m'.capacity ≡ m.nsectors)
      × (m'.device.size ≡ m.nsectors * m.logical_block_size)
      × IsValid m'.device

  few_sectors : m.nsectors < 2 ^ 31
  few_sectors =
      let one : m.nsectors ≤ m.nsectors * m.logical_block_size =
        le-mul_of_pos_right m.nsectors sized.some_bytes in
      omega (arith, sized.int_size)

  pub granted-IsLoaded : grants k m ≡ true → (m' : Module) × IsLoaded m'
  granted-IsLoaded granted =
      let (m', loads, held, number, major, capacity, size, memory) = granted-Loads k m granted in
      let bytes : length m'.device.bytes ≡ wanted m = alloc (wanted m) m'.device.bytes memory in
      let product : wanted m ≡ m.nsectors * m.logical_block_size = wanted_lem m sized in
      (
        m',
        (
          loads,
          held,
          number,
          capacity ∙ extend32_small m.nsectors few_sectors,
          size ∙ product,
          record { sized = bytes ∙ sym size; small = omega (arith, sized.int_size) },
        ),
      )

-- A segment within the capacity, on blocks of 512 bytes.
module _ (n : ℕ) (small : n * 512 < 2 ^ 31) where
  IsWithin-sane : (s : Segment) → IsWithin n s → IsSaneSegment 512 s × (fits 512 (n * 512) s ≡ true)
  IsWithin-sane s h = (
    record {
      positive = omega arith;
      no_wrap = omega (arith, h.ends);
      room = omega (arith, h.filled);
    },
    le→leb (s.pos * 512 + s.sectors * 512) (n * 512) (omega (arith, h.ends)),
  )

  all-sane :
      (segments : List Segment)
      → All (IsWithin n) segments
      → All (IsSaneSegment 512) segments × All (λ s. fits 512 (n * 512) s ≡ true) segments
  all-sane [] h = (tt, tt)
  all-sane (s ∷ segments) h =
      let (sane, fit) = IsWithin-sane s h.0 in
      let (all_sane, all_fit) = all-sane segments h.1 in ((sane, all_sane), (fit, all_fit))

-- The driver is loaded with blocks of 512 bytes, which are the default, an int holds the size of the
-- disk, vmalloc gives what it is asked for, register_blkdev does what is relied on, and the kernel
-- grants everything. Then, whatever file
-- system requests come within the capacity that the driver has set, in however many calls: none is
-- dropped and none leaves the memory; each byte is at the end what was written there last, or what
-- vmalloc had left; each read sees the writes before it, those of earlier calls too; and unloading
-- gives back what loading took, except a major number that was asked for, which stays registered.
pub sbd_init-serves :
    (k : Answers) (m : Module) (layer : BlockLayer) (fuel : ℕ) (qs : List layer.Queue)
    → grants k m ≡ true
    → IsAllocator k
    → IsSized m
    → m.logical_block_size ≡ 512
    → All (λ q. All IsFs (layer.pending q) × (length (layer.pending q) < fuel)) qs
    → All (IsWithin m.nsectors) (all_pending layer qs)
    → IsRegistry k m
    → (m' : Module) × (dev' : Device) × (done : List Segment) × (sbd_init k m ≡ some (pos 0, m'))
      × (m'.capacity ≡ m.nsectors)
      × (serve_queues layer 512 fuel qs m'.device ≡ returned (dev', done))
      × All (λ s. fits 512 m'.device.size s ≡ true) (all_pending layer qs)
      × ((i : ℕ)
          → get_elem? dev'.bytes i
            ≡ latest 512 m'.device.size (all_pending layer qs) i (get_elem? m'.device.bytes i))
      × ((n : ℕ) (s : Segment)
          → get_elem? (all_pending layer qs) n ≡ some s
          → Sees 512 m'.device.size (get_elem? m'.device.bytes) (all_pending layer qs) done n s)
      × (sbd_exit (record m' { device = dev' }) ≡ some (kept m.major_num m.held))
unfolding sbd_exit
sbd_init-serves k m layer fuel qs granted alloc sized block fs within registry =
    let (m', (loads, held, number, capacity, size, valid)) =
      granted-IsLoaded k m alloc sized granted in
    let small : m.nsectors * 512 < 2 ^ 31 = rw block at sized.int_size in
    let size' : m'.device.size ≡ m.nsectors * 512 = size ∙ ap (λ b. m.nsectors * b) block in
    let (sane, fit) = all-sane m.nsectors small (all_pending layer qs) within in
    let (dev', done, plays) = serve_all-Plays m'.device (all_pending layer qs) valid sane in
    (
      m',
      dev',
      done,
      loads,
      capacity,
      serve_queues-serve_all layer 512 fuel qs m'.device fs ∙ plays.served,
      rw size' fit,
      plays.disk_after,
      plays.buffers_after,
      exits k m registry (accepted k m granted) (record m' { device = dev' }) held number,
    )
