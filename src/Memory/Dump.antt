-- ===== src/Memory/Dump.antt =====
-- memory/kmalloc_rand.c: hex_dump. The lines that it prints are its result; isprint is the kernel's.
pub mod Lines
pub mod Length
pub mod Laws
pub mod Read
use kernel_examples.Prelude.{
  ℕ, zero, suc, ◌+◌, ◌-◌, ◌/◌, ◌%◌, Bool, Option, none, some, List, [], ◌∷◌, ◌++◌, length,
  get_elem?, take, replicate, hex, hex_digit, ltb, leb, if◌then◌else◌, ◌>>=◌,
}
use kernel_examples.Kernel.{u64}

abbrev pub line_size : ℕ
line_size = 128

-- The text in `line`, up to its zero byte, and `pos`.
pub record Line : Type 0 where
  pub text : List ℕ
  pub pos : ℕ

abbrev pub empty : Line
empty = record { text = []; pos = 0 }

-- `pos += snprintf(line + pos, sizeof(line) - pos, ...)`: the text is cut where the array ends, and
-- `pos` moves on by its whole length. With `pos` behind the array the size wraps round, `none`.
pub append : List ℕ → Line → Option Line
append s l =
    if leb l.pos line_size
    then some (record { text = take (line_size - 1) (l.text ++ s); pos = l.pos + length s })
    else none

-- The digits of a size_t, on fuel: sixteen are enough.
unfoldable pub hex_number : ℕ → ℕ → List ℕ
hex_number zero n = []
hex_number (suc fuel) n =
    let front = hex_number fuel (n / 16) in
    if ltb n 16 then hex_digit n ∷ [] else front ++ (hex_digit (n % 16) ∷ [])

-- "%08zx  "
pub offset_text : ℕ → List ℕ
offset_text i =
    let digits = hex_number 16 i in
    replicate (8 - length digits) b'0' ++ (digits ++ (b' ' ∷ b' ' ∷ []))

abbrev pub blank : List ℕ
blank = b' ' ∷ b' ' ∷ b' ' ∷ []

module _ (isprint : ℕ → Bool) where
  abbrev pub shown : ℕ → ℕ
  shown c = if isprint c then c else b'.'

  module _ (data_ : List ℕ) (len : ℕ) where
    -- One round of the loop over the bytes of a line; `none` is a read outside the memory.
    pub cell : ℕ → ℕ → Option (List ℕ)
    cell i j =
        if ltb (u64 (i + j)) len
        then (do byte ← get_elem? data_ (u64 (i + j)); some (hex byte ++ (b' ' ∷ [])))
        else some blank

    pub hex_loop : ℕ → ℕ → ℕ → Line → Option Line
    hex_loop zero i j l = some l
    hex_loop (suc rounds) i j l = do s ← cell i j; more ← append s l; hex_loop rounds i (j + 1) more

    -- It ends after 16 rounds or with the last byte.
    pub ascii_loop : ℕ → ℕ → ℕ → Line → Option Line
    ascii_loop zero i j l = some l
    ascii_loop (suc rounds) i j l =
        if ltb (u64 (i + j)) len
        then (do
          c ← get_elem? data_ (u64 (i + j))
          more ← append (shown c ∷ []) l
          ascii_loop rounds i (j + 1) more)
        else some l

    pub dump_line : ℕ → Option (List ℕ)
    dump_line i = do
      l ← append (offset_text i) empty
      l ← hex_loop 16 i 0 l
      l ← append (b' ' ∷ b'|' ∷ []) l
      l ← ascii_loop 16 i 0 l
      l ← append (b'|' ∷ []) l
      some l.text

    -- The outer loop, on fuel; `none` is no more fuel, too.
    pub dump_from : ℕ → ℕ → Option (List (List ℕ))
    dump_from zero i = none
    dump_from (suc fuel) i =
        let later = dump_from fuel (u64 (i + 16)) in
        if ltb i len then (do line ← dump_line i; lines ← later; some (line ∷ lines)) else some []

  pub hex_dump : ℕ → List ℕ → ℕ → Option (List (List ℕ))
  hex_dump fuel data_ len = dump_from data_ len fuel 0
