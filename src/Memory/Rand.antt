-- ===== src/Memory/Rand.antt =====
-- memory/kmalloc_rand.c: my_init, which fills and dumps memory, frees it, and dumps what it gets next.
pub mod Laws
pub mod Read
use kernel_examples.Prelude.{
  ℕ, zero, suc, ◌+◌, Bool, true, false, Option, none, some, List, [], ◌∷◌, ◌++◌, replicate,
  if◌then◌else◌, ◌>>=◌,
}
use kernel_examples.Prelude.Int.{ℤ, pos}
use kernel_examples.Kernel.{Ledger, acquire, release, buffer}
use kernel_examples.Memory.Dump.{hex_dump}

abbrev pub size : ℕ
size = 1024

-- `data`, in which a pointer is null or not, what was dumped, and what is held.
pub record Loop : Type 0 where
  pub pointers : List Bool
  pub dumps : List (List (List ℕ))
  pub held : Ledger

module _ (isprint : ℕ → Bool) where
  -- A loop that allocates, of so many rounds from `i` on. kmalloc answers with memory that holds
  -- anything, or with none; `set` is whether the memory is filled with the number of the round. The
  -- fuel of a dump of 32 bytes is 3.
  pub allocate : Bool → (ℕ → Option (List ℕ)) → ℕ → ℕ → Ledger → Option Loop
  allocate set kmalloc zero i l = some (record { pointers = []; dumps = []; held = l })
  allocate set kmalloc (suc rounds) i l = elim (kmalloc i) [
    | none ↦ (do
      later ← allocate set kmalloc rounds (i + 1) l
      some (record later { pointers = false ∷ later.pointers }))
    | some memory ↦ (do
      dump ← hex_dump isprint 3 (if set then replicate size i else memory) 32
      later ← allocate set kmalloc rounds (i + 1) (acquire buffer l)
      some (record later { pointers = true ∷ later.pointers; dumps = dump ∷ later.dumps }))
  ]

  -- The loop that frees what is not null.
  pub free : List Bool → Ledger → Option Ledger
  free [] l = some l
  free (true ∷ pointers) l = release buffer l >>= free pointers
  free (false ∷ pointers) l = free pointers l

  -- It returns 0; the dumps are what it prints, and my_exit does nothing.
  pub my_init :
      (ℕ → Option (List ℕ))
      → (ℕ → Option (List ℕ))
      → Ledger
      → Option (ℤ × List (List (List ℕ)) × Ledger)
  my_init kmalloc again l = do
    first ← allocate true kmalloc 4 0 l
    l ← free first.pointers first.held
    second ← allocate false again 4 0 l
    l ← free second.pointers second.held
    some (pos 0, first.dumps ++ second.dumps, l)
