-- ===== src/Memory/Tests.antt =====
-- memory: seventeen bytes and their dump, and memories that are given out a second time.
use kernel_examples.Prelude.{
  ℕ, ◌≡◌, ◌-◌, ◌==◌, ◌++◌, map, Option, none, if◌then◌else◌, arith, Bool, some, List, take,
  replicate, All, leb, ltb, ◌&&◌, length-replicate, subst, true, false, length,
}
use kernel_examples.Prelude.Int.{pos}
use kernel_examples.Kernel.{nothing}
use kernel_examples.Memory.Dump.{hex_dump}
use kernel_examples.Memory.Dump.Lines.{lines}
use kernel_examples.Memory.Dump.Laws.{hex_dump-lines}
use kernel_examples.Memory.Dump.Read.{IsByte, read_dump, read_dump-hex_dump}
use kernel_examples.Memory.Rand.{size, my_init}
use kernel_examples.Memory.Rand.Laws.{IsAllocator}
use kernel_examples.Memory.Rand.Read.{HasBytes, found, numbered, replicate-IsByte, my_init-read}

abbrev isprint : ℕ → Bool
isprint c = leb 32 c && ltb c 127

abbrev bytes : List ℕ
bytes = replicate 17 b'A'

hex_dump-lines_example : hex_dump isprint 3 bytes 17 ≡ some (lines isprint 2 0 (take 17 bytes))
hex_dump-lines_example = hex_dump-lines isprint bytes 17 3 (omega arith) (omega arith) (omega arith)

read_dump-hex_dump_example :
    (dump : List (List ℕ)) × (hex_dump isprint 3 bytes 17 ≡ some dump)
    × (read_dump dump ≡ take 17 bytes)
read_dump-hex_dump_example =
    read_dump-hex_dump isprint bytes 17 3 (omega arith) (omega arith) (omega arith)
      (replicate-IsByte 17 b'A' (omega arith))

-- The memories are given out again from the last one on, with the bytes that they were set to, and
-- the third call is refused in both rounds.
abbrev first_round : ℕ → Option (List ℕ)
first_round i = if i == 2 then none else some (replicate size 255)

abbrev second_round : ℕ → Option (List ℕ)
second_round i = if i == 2 then none else some (replicate size (3 - i))

-- What holds of the memory that is given unless a call is refused holds of what is given.
unless_refused :
    (P : List ℕ → Type 0) (refused : Bool) (memory given : List ℕ)
    → (if refused then none else some memory) ≡ some given
    → P memory
    → P given
unless_refused P true memory given e h = absurd cc
unless_refused P false memory given e h = let same : memory ≡ given = cc in subst P same h

first_round-IsAllocator : IsAllocator first_round
first_round-IsAllocator i memory e =
    unless_refused (λ m. length m ≡ size) (i == 2) (replicate size 255) memory e
      (length-replicate {A = ℕ} size 255)

second_round-IsAllocator : IsAllocator second_round
second_round-IsAllocator i memory e =
    unless_refused (λ m. length m ≡ size) (i == 2) (replicate size (3 - i)) memory e
      (length-replicate {A = ℕ} size (3 - i))

second_round-HasBytes : HasBytes second_round
second_round-HasBytes i memory e =
    unless_refused (All IsByte) (i == 2) (replicate size (3 - i)) memory e
      (replicate-IsByte size (3 - i) (omega arith))

my_init-read_example :
    (dumps : List (List (List ℕ))) × (my_init isprint first_round second_round nothing
      ≡ some (pos 0, dumps, nothing))
    × (map read_dump dumps ≡ numbered first_round 4 0 ++ found second_round 4 0)
my_init-read_example =
    my_init-read isprint first_round second_round nothing first_round-IsAllocator
      second_round-IsAllocator second_round-HasBytes
