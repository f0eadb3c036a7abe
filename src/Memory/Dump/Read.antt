-- ===== src/Memory/Dump/Read.antt =====
-- memory/kmalloc_rand.c: reading the bytes back from a dump.
use kernel_examples.Prelude.{
  ℕ, zero, suc, ◌+◌, ◌-◌, ◌*◌, ◌/◌, ◌%◌, ◌^◌, ◌≤◌, ◌<◌, ◌≡◌, refl, ap, ap₂, ◌∙◌, arith, Bool, false,
  some, List, [], ◌∷◌, ◌++◌, length, take, drop, replicate, hex_digit, unhex_digit, unhex-hex,
  length-append, length-replicate, length-take, take_long, drop-append_at, take-drop, ltb→le, All,
  All-take, All-drop, ltb, ◌==◌, if◌then◌else◌, Bool-cases, inl, inr,
}
use kernel_examples.Memory.Dump.{hex_number, offset_text, hex_dump}
use kernel_examples.Memory.Dump.Lines.{cells, characters, line_of, lines}
use kernel_examples.Memory.Dump.Laws.{hex_dump-lines}

abbrev pub IsByte : ℕ → Type 0
IsByte b = b < 256

-- The bytes of so many cells, up to the first blank one.
pub read_cells : ℕ → List ℕ → List ℕ
read_cells (suc count) (h ∷ l ∷ s ∷ text) =
    let more = read_cells count text in
    if h == b' ' then [] else (unhex_digit h * 16 + unhex_digit l) ∷ more
read_cells _ _ = []

-- The cells of a line start behind its first ten characters.
pub read_line : List ℕ → List ℕ
read_line line = read_cells 16 (drop 10 line)

pub read_dump : List (List ℕ) → List ℕ
read_dump [] = []
read_dump (line ∷ lines) = read_line line ++ read_dump lines

hex_digit-ne-space : (d : ℕ) → d < 16 → (hex_digit d == b' ') ≡ false
unfolding hex_digit
hex_digit-ne-space d h = ground arith

read_cells-cells :
    (count : ℕ) (bytes tail : List ℕ)
    → All IsByte bytes
    → read_cells count (cells count bytes ++ tail) ≡ take count bytes
unfolding read_cells cells
read_cells-cells zero bytes tail h = refl
read_cells-cells (suc count) [] tail h = refl
read_cells-cells (suc count) (b ∷ bytes) tail h =
    rw (hex_digit-ne-space (b / 16 % 16) (omega arith))
      (ap₂ ◌∷◌ (unhex-hex b h.0) (read_cells-cells count bytes tail h.1))

more_digits : (width n : ℕ) → n < 16 ^ suc width → 16 ≤ n → 1 ≤ width
more_digits zero n h k = absurd (omega arith)
more_digits (suc width) n h k = omega arith

length-hex_number_small :
    (width fuel n : ℕ) → 1 ≤ width → n < 16 ^ width → length (hex_number fuel n) ≤ width
unfolding hex_number
length-hex_number_small width zero n p h = omega arith
length-hex_number_small zero (suc fuel) n p h = absurd (omega arith)
length-hex_number_small (suc width) (suc fuel) n p h = elim (Bool-cases (ltb n 16)) [
  | inl small ↦ rw small (omega arith)
  | inr large ↦
      let last : 1 ≤ width = more_digits width n h (ltb→le n 16 large) in
      let front = length-hex_number_small width fuel (n / 16) last (omega arith) in
      rw large
        (omega (arith, length-append {A = ℕ} (hex_number fuel (n / 16)) (hex_digit (n % 16) ∷ [])))
]

length-offset_text_small : (i : ℕ) → i < 2 ^ 32 → length (offset_text i) ≡ 10
unfolding offset_text
length-offset_text_small i h =
    let digits = length-hex_number_small 8 16 i (omega arith) h in
    omega (
      arith,
      length-append {A = ℕ} (replicate (8 - length (hex_number 16 i)) b'0')
          (hex_number 16 i ++ (b' ' ∷ b' ' ∷ [])),
      length-append {A = ℕ} (hex_number 16 i) (b' ' ∷ b' ' ∷ []),
      length-replicate {A = ℕ} (8 - length (hex_number 16 i)) b'0',
    )

read_line-line_of :
    (isprint : ℕ → Bool) (i : ℕ) (bytes : List ℕ)
    → i < 2 ^ 32
    → All IsByte bytes
    → read_line (line_of isprint i bytes) ≡ take 16 bytes
unfolding read_line line_of
read_line-line_of isprint i bytes h k =
    let tail = b' ' ∷ b'|' ∷ (characters isprint 16 bytes ++ (b'|' ∷ [])) in
    ap (read_cells 16)
      (drop-append_at 10 (offset_text i) (cells 16 bytes ++ tail) (length-offset_text_small i h))
    ∙ read_cells-cells 16 bytes tail k

pub read_dump-lines :
    (isprint : ℕ → Bool) (count i : ℕ) (bytes : List ℕ)
    → i + 16 * count ≤ 2 ^ 32
    → All IsByte bytes
    → read_dump (lines isprint count i bytes) ≡ take (16 * count) bytes
unfolding read_dump lines
read_dump-lines isprint zero i bytes h k = refl
read_dump-lines isprint (suc count) i bytes h k =
    let e : 16 + 16 * count ≡ 16 * suc count = omega arith in
    ap₂ ◌++◌ (read_line-line_of isprint i bytes (omega arith) k) (
      read_dump-lines isprint count (i + 16) (drop 16 bytes) (omega arith)
        (All-drop IsByte 16 bytes k))
    ∙ take-drop 16 (16 * count) bytes
    ∙ ap (λ n. take n bytes) e

-- Of a memory of bytes that has those asked for, at most 2^32 - 16 of them, hex_dump makes a dump with
-- fuel for one round each 16 bytes and one more, and the bytes can be read back from it.
pub read_dump-hex_dump :
    (isprint : ℕ → Bool) (data_ : List ℕ) (len fuel : ℕ)
    → len ≤ length data_
    → len ≤ 2 ^ 32 - 16
    → (len + 15) / 16 < fuel
    → All IsByte data_
    → (dump : List (List ℕ)) × (hex_dump isprint fuel data_ len ≡ some dump)
      × (read_dump dump ≡ take len data_)
read_dump-hex_dump isprint data_ len fuel l h f k =
    let count = (len + 15) / 16 in
    (
      lines isprint count 0 (take len data_),
      hex_dump-lines isprint data_ len fuel l (omega arith) f,
      read_dump-lines isprint count 0 (take len data_) (omega arith) (All-take IsByte len data_ k)
          ∙ take_long (16 * count) (take len data_) (omega (arith, length-take {A = ℕ} len data_)),
    )
