-- ===== src/Memory/Rand/Read.antt =====
-- memory/kmalloc_rand.c: what can be read back from all that my_init prints.
use kernel_examples.Prelude.{
  ℕ, zero, suc, ◌+◌, ◌≡◌, ◌≤◌, ◌<◌, refl, ap, ap₂, ◌∙◌, arith, Bool, true, false, Option, none,
  some, Option-cases, inl, inr, List, [], ◌∷◌, ◌++◌, map, take, replicate, length-take, take_long,
  All, All-take,
}
use kernel_examples.Prelude.Int.{pos}
use kernel_examples.Kernel.{Ledger}
use kernel_examples.Memory.Dump.Lines.{lines}
use kernel_examples.Memory.Dump.Read.{IsByte, read_dump, read_dump-lines}
use kernel_examples.Memory.Rand.{size, my_init}
use kernel_examples.Memory.Rand.Laws.{IsAllocator, loop_dumps, my_init-dumps}

-- What kmalloc gives is memory of bytes.
abbrev pub HasBytes : (ℕ → Option (List ℕ)) → Type 0
HasBytes kmalloc = (i : ℕ) (memory : List ℕ) → kmalloc i ≡ some memory → All IsByte memory

-- The first 32 bytes of each memory that is granted in so many rounds from `i` on.
pub found : (ℕ → Option (List ℕ)) → ℕ → ℕ → List (List ℕ)
found kmalloc zero i = []
found kmalloc (suc rounds) i = elim (kmalloc i) [
  | none ↦ found kmalloc rounds (i + 1)
  | some memory ↦ take 32 memory ∷ found kmalloc rounds (i + 1)
]

-- For each memory that is granted, the number of its round, 32 times.
pub numbered : (ℕ → Option (List ℕ)) → ℕ → ℕ → List (List ℕ)
numbered kmalloc zero i = []
numbered kmalloc (suc rounds) i = elim (kmalloc i) [
  | none ↦ numbered kmalloc rounds (i + 1)
  | some memory ↦ replicate 32 i ∷ numbered kmalloc rounds (i + 1)
]

pub replicate-IsByte : (n b : ℕ) → b < 256 → All IsByte (replicate n b)
replicate-IsByte zero b h = tt
replicate-IsByte (suc n) b h = (h, replicate-IsByte n b h)

map-append {ℓ κ} :
    {A : Type ℓ} {B : Type κ} (f : A → B) (xs ys : List A) → map f (xs ++ ys) ≡ map f xs ++ map f ys
map-append f [] ys = refl
map-append f (x ∷ xs) ys = ap (λ r. f x ∷ r) (map-append f xs ys)

module _ (isprint : ℕ → Bool) where
  -- Two lines give back 32 bytes.
  read_dump-two_lines :
      (bytes : List ℕ)
      → All IsByte bytes
      → read_dump (lines isprint 2 0 (take 32 bytes)) ≡ take 32 bytes
  read_dump-two_lines bytes h =
      read_dump-lines isprint 2 0 (take 32 bytes) (omega arith) (All-take IsByte 32 bytes h)
      ∙ take_long 32 (take 32 bytes) (omega (arith, length-take {A = ℕ} 32 bytes))

  loop_dumps-numbered :
      (kmalloc : ℕ → Option (List ℕ)) (rounds i : ℕ)
      → i + rounds ≤ 256
      → map read_dump (loop_dumps isprint true kmalloc rounds i) ≡ numbered kmalloc rounds i
  unfolding loop_dumps numbered
  loop_dumps-numbered kmalloc zero i h = refl
  loop_dumps-numbered kmalloc (suc rounds) i h =
      let later = loop_dumps-numbered kmalloc rounds (i + 1) (omega arith) in
      elim (Option-cases (kmalloc i)) [
        | inl refused ↦ rw (loop_dumps, numbered, refused) later
        | inr (memory, granted) ↦
            rw (loop_dumps, numbered, granted)
              (ap₂ ◌∷◌
                (read_dump-two_lines (replicate size i) (replicate-IsByte size i (omega arith)))
                later)
      ]

  loop_dumps-found :
      (kmalloc : ℕ → Option (List ℕ)) (rounds i : ℕ)
      → HasBytes kmalloc
      → map read_dump (loop_dumps isprint false kmalloc rounds i) ≡ found kmalloc rounds i
  unfolding loop_dumps found
  loop_dumps-found kmalloc zero i h = refl
  loop_dumps-found kmalloc (suc rounds) i h =
      let later = loop_dumps-found kmalloc rounds (i + 1) h in
      elim (Option-cases (kmalloc i)) [
        | inl refused ↦ rw (loop_dumps, found, refused) later
        | inr (memory, granted) ↦
            rw (loop_dumps, found, granted)
              (ap₂ ◌∷◌ (read_dump-two_lines memory (h i memory granted)) later)
      ]

  -- kmalloc gives memory as large as was asked for, of bytes in the second round of allocations, and
  -- may refuse. my_init returns 0, holds what it held before, and prints one dump for each memory that
  -- it got. Reading the dumps back gives, for the first round, the number of the round that allocated
  -- the memory, 32 times; for the second, the first 32 bytes that were found in it.
  pub my_init-read :
      (kmalloc again : ℕ → Option (List ℕ)) (l : Ledger)
      → IsAllocator kmalloc
      → IsAllocator again
      → HasBytes again
      → (dumps : List (List (List ℕ))) × (my_init isprint kmalloc again l ≡ some (pos 0, dumps, l))
        × (map read_dump dumps ≡ numbered kmalloc 4 0 ++ found again 4 0)
  my_init-read kmalloc again l sized sized' bytes =
      let first = loop_dumps isprint true kmalloc 4 0 in
      let second = loop_dumps isprint false again 4 0 in
      (
        first ++ second,
        my_init-dumps isprint kmalloc again l sized sized',
        map-append read_dump first second
            ∙ ap₂ ◌++◌ (loop_dumps-numbered kmalloc 4 0 (omega arith))
                (loop_dumps-found again 4 0 bytes),
      )
