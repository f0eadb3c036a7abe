-- ===== src/Morse/Code.antt =====
-- io_port/morse_io.c: `morse`, from a text to the signals that it sends.
pub mod Alphabet
pub mod Laws
use Prim.Native.Nat.{bit_and}
use kernel_examples.Prelude.{
  ℕ, zero, suc, ◌+◌, ◌-◌, ◌/◌, ◌%◌, ◌^◌, Bool, true, false, Option, none, some, List, [], ◌∷◌, ◌++◌,
  get_elem?, ltb, leb, ◌==◌, ◌&&◌, if◌then◌else◌, ◌>>=◌,
}
use kernel_examples.Kernel.{u32}

-- The calls that a text leads to: send_dot, send_dash, letter_space and word_space.
pub data Signal : Type 0 where
  dot dash letter_space word_space : Signal

abbrev pub morse_space_mask : ℕ
morse_space_mask = 0x8000

abbrev pub morse_bit_mask : ℕ
morse_bit_mask = 0xfe

-- `static unsigned int codes[64]`; the places without an initialiser are 0.
abbrev pub codes : List ℕ
codes =
    morse_space_mask ∷ 0 ∷ 0 ∷ 0 ∷ 0 ∷ 0 ∷ 0 ∷ 0 ∷ 0 ∷ 0 ∷ 0 ∷ 0 ∷ 115 ∷ 49 ∷ 106 ∷ 41 ∷ 63 ∷ 62
    ∷ 60 ∷ 56 ∷ 48 ∷ 32 ∷ 33 ∷ 35 ∷ 39 ∷ 47 ∷ 0 ∷ 0 ∷ 0 ∷ 0 ∷ 0 ∷ 76 ∷ 0 ∷ 6 ∷ 17 ∷ 21 ∷ 9 ∷ 2 ∷ 20
    ∷ 11 ∷ 16 ∷ 4 ∷ 30 ∷ 13 ∷ 18 ∷ 7 ∷ 5 ∷ 15 ∷ 22 ∷ 27 ∷ 10 ∷ 8 ∷ 3 ∷ 12 ∷ 24 ∷ 14 ∷ 25 ∷ 29 ∷ 19
    ∷ 0 ∷ 0 ∷ 0 ∷ 0 ∷ 0 ∷ []

-- `c = *cp++` into an unsigned int: a `char` of 128 or more is negative.
abbrev pub char_value : ℕ → ℕ
char_value byte = if ltb byte 128 then byte else byte + 2 ^ 32 - 256

-- The inner `while`, on fuel: 32 shifts leave nothing of an unsigned int. `none` is no more fuel.
send_bits : ℕ → ℕ → Option (List Signal)
send_bits zero c = none
send_bits (suc fuel) c =
    let rest = send_bits fuel (c / 2) in
    if bit_and c morse_bit_mask == 0
    then some (letter_space ∷ [])
    else (rest >>= λ signals. some ((if bit_and c 1 == 0 then dot else dash) ∷ signals))

-- A round of the outer `while`; `none` is also a read outside `codes`.
pub morse_char : ℕ → Option (List Signal)
unfolding send_bits
morse_char byte =
    let c = char_value byte in
    let upper = if leb b'a' c && leb c b'z' then u32 (c + 2 ^ 32 - b'a' + b'A') else c in
    let index = u32 (upper + 2 ^ 32 - b' ') in
    if ltb c b'A' then some [] else if ltb 58 index then some [] else (do
      code ← get_elem? codes index
      if bit_and code morse_space_mask == 0 then send_bits 33 code else some (word_space ∷ []))

-- The text up to its zero byte; `none` is also a text without one.
pub morse : List ℕ → Option (List Signal)
unfolding morse_char
morse [] = none
morse (byte ∷ cp) =
    let rest = morse cp in
    if byte == 0
    then some []
    else (do signals ← morse_char byte; more ← rest; some (signals ++ more))
