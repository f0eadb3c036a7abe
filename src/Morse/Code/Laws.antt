-- ===== src/Morse/Code/Laws.antt =====
-- io_port/morse_io.c: the signals of a text are those of its letters in the Morse alphabet.
use kernel_examples.Prelude.{
  ℕ, ◌+◌, ◌-◌, ◌<◌, ◌≡◌, ◌≢◌, refl, ap, ap₂, ◌∙◌, arith, Bool, true, false, Option, none, some,
  List, [], ◌∷◌, ◌++◌, append_assoc, append-nil, map, ◌==◌, ◌&&◌, if◌then◌else◌, All, passes,
  table_entry, Bool-cases, inl, inr, ==→eq, ne→==,
}
use kernel_examples.Morse.Code.{Signal, dot, dash, letter_space, word_space, morse_char, morse}
use kernel_examples.Morse.Code.Alphabet.{
  Mark, short, long, alphabet, letter_marks, find_letter, is_upper, is_lower, letters,
}

abbrev pub signal : Mark → Signal
signal short = dot
signal long = dash

-- A letter, by its number, with the space behind it.
abbrev pub letter_signals : ℕ → List Signal
letter_signals n = map signal (letter_marks n) ++ (letter_space ∷ [])

-- What the alphabet makes of a byte: anything that is no letter is passed over.
abbrev pub char_signals : ℕ → List Signal
char_signals c =
    if is_upper c
    then letter_signals (c - b'A')
    else if is_lower c
    then letter_signals (c - b'a')
    else []

abbrev number : Signal → ℕ
number dot = 0
number dash = 1
number letter_space = 2
number word_space = 3

same_signals : List Signal → List Signal → Bool
same_signals [] [] = true
same_signals (s ∷ a) (t ∷ b) = number s == number t && same_signals a b
same_signals _ _ = false

same_signals-eq : (a b : List Signal) → same_signals a b ≡ true → a ≡ b
unfolding same_signals
same_signals-eq [] [] h = refl
same_signals-eq [] (t ∷ b) h = cc
same_signals-eq (s ∷ a) [] h = cc
same_signals-eq (s ∷ a) (t ∷ b) h = ground (arith, same_signals-eq a b)

sends : Option (List Signal) → List Signal → Bool
unfolding same_signals
sends none expected = false
sends (some signals) expected = same_signals signals expected

sends-eq :
    (o : Option (List Signal)) (expected : List Signal)
    → sends o expected ≡ true
    → o ≡ some expected
unfolding sends
sends-eq none expected h = cc
sends-eq (some signals) expected h = ap some (same_signals-eq signals expected h)

-- All 256 bytes.
char_table : passes 0 256 (λ c. sends (morse_char c) (char_signals c)) ≡ true
unfolding passes sends morse_char letter_marks
char_table = refl

-- Every byte sends what the alphabet says: a letter of either case its marks and a space, and any
-- other byte nothing, the space and the digits of the code's table included. No byte reads outside
-- the table, and the fuel is enough for every code in it.
pub morse_char_lem : (c : ℕ) → c < 256 → morse_char c ≡ some (char_signals c)
morse_char_lem c h = sends-eq _ _ (table_entry 256 _ char_table c h)

-- A listener: marks are gathered up to a space, and the letter is looked up.
pub hear : List Mark → List Signal → List ℕ
hear marks [] = []
hear marks (dot ∷ s) = hear (marks ++ (short ∷ [])) s
hear marks (dash ∷ s) = hear (marks ++ (long ∷ [])) s
hear marks (letter_space ∷ s) = elim (find_letter marks 0 alphabet) [
  | none ↦ hear [] s
  | some c ↦ c ∷ hear [] s
]
hear marks (word_space ∷ s) = b' ' ∷ hear [] s

hear-marks :
    (ms heard : List Mark) (s : List Signal)
    → hear heard (map signal ms ++ (letter_space ∷ s)) ≡ hear (heard ++ ms) (letter_space ∷ s)
unfolding hear
hear-marks [] heard s = rw append-nil
hear-marks (short ∷ ms) heard s =
    hear-marks ms (heard ++ (short ∷ [])) s
    ∙ ap (λ m. hear m (letter_space ∷ s)) (append_assoc heard (short ∷ []) ms)
hear-marks (long ∷ ms) heard s =
    hear-marks ms (heard ++ (long ∷ [])) s
    ∙ ap (λ m. hear m (letter_space ∷ s)) (append_assoc heard (long ∷ []) ms)

found : Option ℕ → ℕ → Bool
found none n = false
found (some m) n = m == n

letter_table : passes 0 26 (λ n. found (find_letter (letter_marks n) 0 alphabet) (b'A' + n)) ≡ true
unfolding passes found find_letter letter_marks
letter_table = refl

found-eq : (o : Option ℕ) (n : ℕ) → found o n ≡ true → o ≡ some n
unfolding found
found-eq none n h = cc
found-eq (some m) n h = ap some (==→eq m n h)

pub find_letter-letter_marks :
    (n : ℕ) → n < 26 → find_letter (letter_marks n) 0 alphabet ≡ some (b'A' + n)
find_letter-letter_marks n h = found-eq _ _ (table_entry 26 _ letter_table n h)

hear-letter_signals :
    (n : ℕ) (s : List Signal) → n < 26 → hear [] (letter_signals n ++ s) ≡ (b'A' + n) ∷ hear [] s
unfolding hear
hear-letter_signals n s h =
    ap (hear []) (append_assoc (map signal (letter_marks n)) (letter_space ∷ []) s)
    ∙ hear-marks (letter_marks n) [] s
    ∙ rw (find_letter-letter_marks n h, hear)

-- Heard and written down again, one character is the letter that it was, in upper case.
hear-char_signals :
    (c : ℕ) (s : List Signal) (text : List ℕ)
    → hear [] s ≡ letters text
    → hear [] (char_signals c ++ s) ≡ letters (c ∷ text)
unfolding letters
hear-char_signals c s text h = elim (Bool-cases (is_upper c)) [
  | inl upper ↦
      rw upper (hear-letter_signals (c - b'A') s (ground arith) ∙ ap₂ ◌∷◌ (ground arith) h)
  | inr other ↦ elim (Bool-cases (is_lower c)) [
    | inl lower ↦
        rw (other, lower)
          (hear-letter_signals (c - b'a') s (ground arith) ∙ ap₂ ◌∷◌ (ground arith) h)
    | inr neither ↦ rw (other, neither) h
  ]
]

-- A byte of a text: not the zero byte that ends it.
abbrev pub IsText : ℕ → Type 0
IsText c = (c ≢ 0) × (c < 256)

-- What the alphabet makes of a text.
unfoldable pub text_signals : List ℕ → List Signal
text_signals [] = []
text_signals (c ∷ text) = char_signals c ++ text_signals text

pub morse-text_signals :
    (text rest : List ℕ) → All IsText text → morse (text ++ (0 ∷ rest)) ≡ some (text_signals text)
unfolding morse text_signals
morse-text_signals [] rest h = refl
morse-text_signals (c ∷ text) rest h =
    rw (ne→== c 0 h.0.0, morse_char_lem c h.0.1, morse-text_signals text rest h.1)

pub hear-text_signals : (text : List ℕ) → hear [] (text_signals text) ≡ letters text
unfolding text_signals
hear-text_signals [] = unfold hear letters in refl
hear-text_signals (c ∷ text) = hear-char_signals c (text_signals text) text (hear-text_signals text)

-- Playing a text of nonzero bytes, up to the zero behind it, always ends, and whoever listens and
-- looks the marks up in the Morse alphabet hears exactly the letters of the text, in order and in
-- upper case, whatever stands between them.
pub hear-morse :
    (text rest : List ℕ)
    → All IsText text
    → (signals : List Signal) × (morse (text ++ (0 ∷ rest)) ≡ some signals)
      × (hear [] signals ≡ letters text)
hear-morse text rest h = (text_signals text, morse-text_signals text rest h, hear-text_signals text)
