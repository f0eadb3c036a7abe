-- ===== src/Memory/Dump/Length.antt =====
-- memory/kmalloc_rand.c: how long the parts of a line are, and that snprintf does not cut them.
use kernel_examples.Prelude.{
  ℕ, zero, suc, ◌+◌, ◌-◌, ◌*◌, ◌/◌, ◌%◌, ◌≤◌, ◌<◌, ◌≡◌, refl, arith, some, List, [], ◌∷◌, ◌++◌,
  length, replicate, hex_digit, length-append, length-replicate, take_long, ltb, le→leb, Bool-cases,
  inl, inr,
}
use kernel_examples.Memory.Dump.{Line, line_size, append, hex_number, offset_text}
use kernel_examples.Memory.Dump.Lines.{cells}

-- A line with this text, none of it cut off.
abbrev pub whole : List ℕ → Line
whole t = record { text = t; pos = length t }

pub append-whole :
    (s t : List ℕ) → length t + length s < line_size → append s (whole t) ≡ some (whole (t ++ s))
unfolding append
append-whole s t h =
    let e = length-append {A = ℕ} t s in
    rw
      (
        le→leb (length t) line_size (omega arith),
        take_long (line_size - 1) (t ++ s) (omega arith),
        e,
      )
      refl

pub length-cells : (count : ℕ) (bytes : List ℕ) → length (cells count bytes) ≡ 3 * count
unfolding cells
length-cells zero bytes = refl
length-cells (suc count) [] = let e = length-cells count [] in omega arith
length-cells (suc count) (b ∷ bytes) = let e = length-cells count bytes in omega arith

length-hex_number : (fuel n : ℕ) → length (hex_number fuel n) ≤ fuel
unfolding hex_number
length-hex_number zero n = omega arith
length-hex_number (suc fuel) n = elim (Bool-cases (ltb n 16)) [
  | inl small ↦ rw small (omega arith)
  | inr large ↦
      let front = length-hex_number fuel (n / 16) in
      rw large
        (omega (arith, length-append {A = ℕ} (hex_number fuel (n / 16)) (hex_digit (n % 16) ∷ [])))
]

pub length-offset_text : (i : ℕ) → length (offset_text i) ≤ 18
unfolding offset_text
length-offset_text i =
    let digits = length-hex_number 16 i in
    omega (
      arith,
      length-append {A = ℕ} (replicate (8 - length (hex_number 16 i)) b'0')
          (hex_number 16 i ++ (b' ' ∷ b' ' ∷ [])),
      length-append {A = ℕ} (hex_number 16 i) (b' ' ∷ b' ' ∷ []),
      length-replicate {A = ℕ} (8 - length (hex_number 16 i)) b'0',
    )
