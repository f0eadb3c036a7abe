-- ===== src/Memory/Rand/Laws.antt =====
-- memory/kmalloc_rand.c: what my_init prints and what it leaves.
use kernel_examples.Prelude.{
  ℕ, zero, suc, ◌+◌, ◌≡◌, ◌≤◌, refl, ap, ◌∙◌, arith, Bool, true, false, Option, none, some,
  Option-cases, inl, inr, List, [], ◌∷◌, ◌++◌, length, take, replicate, length-replicate,
  if◌then◌else◌,
}
use kernel_examples.Prelude.Int.{pos}
use kernel_examples.Kernel.{Ledger, acquire, buffer, release-acquire}
use kernel_examples.Memory.Dump.Lines.{lines}
use kernel_examples.Memory.Dump.Laws.{hex_dump-lines}
use kernel_examples.Memory.Rand.{size, Loop, allocate, free, my_init}

-- What kmalloc is relied on for: the memory that it gives is as large as was asked for.
abbrev pub IsAllocator : (ℕ → Option (List ℕ)) → Type 0
IsAllocator kmalloc = (i : ℕ) (memory : List ℕ) → kmalloc i ≡ some memory → length memory ≡ size

held_times : ℕ → Ledger → Ledger
held_times zero l = l
held_times (suc n) l = acquire buffer (held_times n l)

held_times-acquire :
    (n : ℕ) (l : Ledger) → held_times n (acquire buffer l) ≡ acquire buffer (held_times n l)
unfolding held_times
held_times-acquire zero l = refl
held_times-acquire (suc n) l = ap (acquire buffer) (held_times-acquire n l)

abbrev count_set : List Bool → ℕ
count_set [] = 0
count_set (true ∷ pointers) = suc (count_set pointers)
count_set (false ∷ pointers) = count_set pointers

module _ (isprint : ℕ → Bool) where
  -- The dumps of a loop: two lines for each memory that was granted.
  unfoldable pub loop_dumps : Bool → (ℕ → Option (List ℕ)) → ℕ → ℕ → List (List (List ℕ))
  loop_dumps set kmalloc zero i = []
  loop_dumps set kmalloc (suc rounds) i = elim (kmalloc i) [
    | none ↦ loop_dumps set kmalloc rounds (i + 1)
    | some memory ↦
        lines isprint 2 0 (take 32 (if set then replicate size i else memory))
        ∷ loop_dumps set kmalloc rounds (i + 1)
  ]

  free-held_times :
      (pointers : List Bool) (l : Ledger)
      → free isprint pointers (held_times (count_set pointers) l) ≡ some l
  unfolding free held_times
  free-held_times [] l = refl
  free-held_times (true ∷ pointers) l =
      rw (release-acquire buffer (held_times (count_set pointers) l)) (free-held_times pointers l)
  free-held_times (false ∷ pointers) l = free-held_times pointers l

  allocate_lem :
      (set : Bool) (kmalloc : ℕ → Option (List ℕ)) (rounds i : ℕ) (l : Ledger)
      → IsAllocator kmalloc
      → (loop : Loop) × (allocate isprint set kmalloc rounds i l ≡ some loop)
        × (loop.dumps ≡ loop_dumps set kmalloc rounds i)
        × (loop.held ≡ held_times (count_set loop.pointers) l)
  unfolding allocate loop_dumps held_times
  allocate_lem set kmalloc zero i l sized =
      (record { pointers = []; dumps = []; held = l }, refl, refl, refl)
  allocate_lem set kmalloc (suc rounds) i l sized = elim (Option-cases (kmalloc i)) [
    | inl refused ↦
        let (loop, ran, dumps, held) = allocate_lem set kmalloc rounds (i + 1) l sized in
        (
          record loop { pointers = false ∷ loop.pointers },
          rw (allocate, refused, ran) refl,
          rw (loop_dumps, refused) dumps,
          held,
        )
    | inr (memory, granted) ↦
        let (loop, ran, dumps, held) =
          allocate_lem set kmalloc rounds (i + 1) (acquire buffer l) sized in
        let shown = if set then replicate size i else memory in
        let dumped =
          hex_dump-lines isprint shown 32 3 (large set i memory (sized i memory granted))
            (omega arith) (omega arith) in
        (
          record loop {
            pointers = true ∷ loop.pointers;
            dumps = lines isprint 2 0 (take 32 shown) ∷ loop.dumps;
          },
          rw (allocate, granted, dumped, ran) refl,
          rw (loop_dumps, granted) (ap (λ d. lines isprint 2 0 (take 32 shown) ∷ d) dumps),
          held ∙ held_times-acquire (count_set loop.pointers) l,
        )
  ]
    where
      large :
          (set : Bool) (i : ℕ) (memory : List ℕ)
          → length memory ≡ size
          → 32 ≤ length (if set then replicate size i else memory)
      large true i memory e = omega (arith, length-replicate {A = ℕ} size i)
      large false i memory e = omega arith

  -- Whatever kmalloc grants, my_init returns 0, has freed every memory once, and has printed the dump
  -- of 32 bytes of each that it got: in the first round the bytes that it set them to, in the second
  -- what it found in them.
  pub my_init-dumps :
      (kmalloc again : ℕ → Option (List ℕ)) (l : Ledger)
      → IsAllocator kmalloc
      → IsAllocator again
      → my_init isprint kmalloc again l
        ≡ some (pos 0, loop_dumps true kmalloc 4 0 ++ loop_dumps false again 4 0, l)
  unfolding my_init
  my_init-dumps kmalloc again l sized sized' =
      let (first, ran, dumps, held) = allocate_lem true kmalloc 4 0 l sized in
      let (second, ran', dumps', held') = allocate_lem false again 4 0 l sized' in
      let freed : free isprint first.pointers first.held ≡ some l =
        ap (free isprint first.pointers) held ∙ free-held_times first.pointers l in
      let freed' : free isprint second.pointers second.held ≡ some l =
        ap (free isprint second.pointers) held' ∙ free-held_times second.pointers l in
      rw (ran, freed, ran', freed', dumps, dumps') refl
