-- ===== src/Morse/Listen.antt =====
-- io_port/morse_io.c: from what a user writes to what is heard of the speaker.
pub mod Write
use kernel_examples.Prelude.{
  ℕ, zero, suc, ◌+◌, ◌-◌, ◌*◌, ◌≤◌, ◌<◌, ◌≡◌, ◌≢◌, refl, ap, ap₂, sym, ◌∙◌, arith, Bool, true,
  false, Option, none, some, List, [], ◌∷◌, ◌++◌, append-nil, append_assoc, replicate, map, ltb,
  lt→ltb, le→ltb, if◌then◌else◌, Bool-cases, inl, inr, passes, table_entry,
}
use kernel_examples.Morse.Code.{Signal, dot, dash, letter_space, word_space}
use kernel_examples.Morse.Code.Alphabet.{
  Mark, short, long, alphabet, letter_marks, find_letter, is_upper, is_lower, letters,
}
use kernel_examples.Morse.Code.Laws.{
  signal, letter_signals, char_signals, text_signals, find_letter-letter_marks,
}
use kernel_examples.Morse.Speaker.Wave.{tone_wave, signal_wave, waves}

-- The letter of the marks, if it is one.
abbrev pub letter : List Mark → List ℕ
letter marks = elim (find_letter marks 0 alphabet) [ none ↦ [] | some c ↦ c ∷ [] ]

pub no_letter : find_letter [] 0 alphabet ≡ none
unfolding find_letter
no_letter = refl

no_marks : (n : ℕ) → n < 26 → letter_marks n ≢ []
no_marks n h e =
    let found : find_letter [] 0 alphabet ≡ some (b'A' + n) =
      rw (← e) (find_letter-letter_marks n h) in
    let missed = no_letter in cc

-- A listener with a clock: it is told for each jiffy whether there is a tone, counts how long a tone
-- or a silence lasts, takes a tone of less than two units for a short mark, and a silence of two or
-- more for the end of a letter.
module _ (unit : ℕ) where
  abbrev pub mark : ℕ → Mark
  mark count = if ltb count (2 * unit) then short else long

  pub listen : List Mark → Bool → ℕ → List Bool → List ℕ
  listen marks true count [] = letter (marks ++ (mark count ∷ []))
  listen marks false count [] = letter marks
  listen marks true count (true ∷ wave) = listen marks true (count + 1) wave
  listen marks true count (false ∷ wave) = listen (marks ++ (mark count ∷ [])) false 1 wave
  listen marks false count (false ∷ wave) = listen marks false (count + 1) wave
  listen marks false count (true ∷ wave) =
      (if ltb count (2 * unit) then [] else letter marks)
      ++ listen (if ltb count (2 * unit) then marks else []) true 1 wave

  -- A stretch of the same.
  listen-tone :
      (n count : ℕ) (marks : List Mark) (wave : List Bool)
      → listen marks true count (replicate n true ++ wave) ≡ listen marks true (count + n) wave
  unfolding listen
  listen-tone zero count marks wave = ap (λ c. listen marks true c wave) (omega arith)
  listen-tone (suc n) count marks wave =
      listen-tone n (count + 1) marks wave ∙ ap (λ c. listen marks true c wave) (omega arith)

  listen-silence :
      (n count : ℕ) (marks : List Mark) (wave : List Bool)
      → listen marks false count (replicate n false ++ wave) ≡ listen marks false (count + n) wave
  unfolding listen
  listen-silence zero count marks wave = ap (λ c. listen marks false c wave) (omega arith)
  listen-silence (suc n) count marks wave =
      listen-silence n (count + 1) marks wave ∙ ap (λ c. listen marks false c wave) (omega arith)

  tone_heard :
      (a b : ℕ) (marks : List Mark) (wave : List Bool)
      → listen marks true 1 ((replicate a true ++ (false ∷ replicate b false)) ++ wave)
        ≡ listen (marks ++ (mark (suc a) ∷ [])) false (suc b) wave
  unfolding listen
  tone_heard a b marks wave =
      ap (listen marks true 1) (append_assoc (replicate a true) (false ∷ replicate b false) wave)
      ∙ listen-tone a 1 marks (false ∷ (replicate b false ++ wave))
      ∙ listen-silence b 1 (marks ++ (mark (1 + a) ∷ [])) wave
      ∙ ap₂ (λ c d. listen (marks ++ (mark c ∷ [])) false d wave) (omega arith) (omega arith)

  -- A whole tone, behind a silence.
  listen-tone_wave :
      (a b count : ℕ) (marks : List Mark) (wave : List Bool)
      → 1 ≤ a
      → 1 ≤ b
      → listen marks false count (tone_wave a b ++ wave)
        ≡ (if ltb count (2 * unit) then [] else letter marks)
          ++ listen ((if ltb count (2 * unit) then marks else []) ++ (mark a ∷ [])) false b wave
  unfolding listen
  listen-tone_wave zero b count marks wave h k = absurd (omega arith)
  listen-tone_wave (suc a) zero count marks wave h k = absurd (omega arith)
  listen-tone_wave (suc a) (suc b) count marks wave h k =
      ap (λ r. (if ltb count (2 * unit) then [] else letter marks) ++ r)
        (tone_heard a b (if ltb count (2 * unit) then marks else []) wave)

  module _ (positive : 1 ≤ unit) where
    mark-dot : mark unit ≡ short
    mark-dot = rw (lt→ltb unit (2 * unit) (omega arith))

    mark-dash : mark (3 * unit) ≡ long
    mark-dash = rw (le→ltb (3 * unit) (2 * unit) (omega arith))

    -- The mark `q` behind a silence.
    listen-mark :
        (q : Mark) (count : ℕ) (marks : List Mark) (wave : List Bool)
        → listen marks false count (signal_wave unit (signal q) ++ wave)
          ≡ (if ltb count (2 * unit) then [] else letter marks)
            ++ listen ((if ltb count (2 * unit) then marks else []) ++ (q ∷ [])) false unit wave
    listen-mark short count marks wave =
        listen-tone_wave unit unit count marks wave positive positive
        ∙ ap
            (λ q.
              (if ltb count (2 * unit) then [] else letter marks)
              ++ listen ((if ltb count (2 * unit) then marks else []) ++ (q ∷ [])) false unit wave)
            mark-dot
    listen-mark long count marks wave =
        listen-tone_wave (3 * unit) unit count marks wave (omega arith) positive
        ∙ ap
            (λ q.
              (if ltb count (2 * unit) then [] else letter marks)
              ++ listen ((if ltb count (2 * unit) then marks else []) ++ (q ∷ [])) false unit wave)
            mark-dash

    -- The marks of a letter but the first, and the space behind it.
    listen-marks :
        (qs marks : List Mark) (s : List Signal)
        → listen marks false unit (waves unit (map signal qs ++ (letter_space ∷ s)))
          ≡ listen (marks ++ qs) false (3 * unit) (waves unit s)
    unfolding waves
    listen-marks [] marks s =
        listen-silence (2 * unit) unit marks (waves unit s)
        ∙ ap₂ (λ m c. listen m false c (waves unit s)) (sym (append-nil marks)) (omega arith)
    listen-marks (q ∷ qs) marks s =
        listen-mark q unit marks (waves unit (map signal qs ++ (letter_space ∷ s)))
        ∙ rw (lt→ltb unit (2 * unit) (omega arith)) (
            listen-marks qs (marks ++ (q ∷ [])) s
            ∙ ap (λ m. listen m false (3 * unit) (waves unit s)) (append_assoc marks (q ∷ []) qs))

    -- A letter behind a long silence ends the letter before it.
    listen-letter :
        (q : Mark) (qs : List Mark) (count : ℕ) (marks : List Mark) (s : List Signal)
        → 2 * unit ≤ count
        → listen marks false count (waves unit (map signal (q ∷ qs) ++ (letter_space ∷ s)))
          ≡ letter marks ++ listen (q ∷ qs) false (3 * unit) (waves unit s)
    unfolding waves
    listen-letter q qs count marks s h =
        listen-mark q count marks (waves unit (map signal qs ++ (letter_space ∷ s)))
        ∙ rw (le→ltb count (2 * unit) h) (ap (λ r. letter marks ++ r) (listen-marks qs (q ∷ []) s))

    listen-letter_signals :
        (n count : ℕ) (marks : List Mark) (s : List Signal)
        → n < 26
        → 2 * unit ≤ count
        → listen marks false count (waves unit (letter_signals n ++ s))
          ≡ letter marks ++ listen (letter_marks n) false (3 * unit) (waves unit s)
    listen-letter_signals n count marks s h k = by_marks (letter_marks n) refl
      where
        by_marks :
            (ms : List Mark)
            → letter_marks n ≡ ms
            → listen marks false count (waves unit ((map signal ms ++ (letter_space ∷ [])) ++ s))
              ≡ letter marks ++ listen ms false (3 * unit) (waves unit s)
        by_marks [] e = absurd (no_marks n h e)
        by_marks (q ∷ qs) e =
            ap (λ r. listen marks false count (waves unit r))
              (append_assoc (map signal (q ∷ qs)) (letter_space ∷ []) s)
            ∙ listen-letter q qs count marks s k

    letter-letter_marks : (n : ℕ) → n < 26 → letter (letter_marks n) ≡ (b'A' + n) ∷ []
    letter-letter_marks n h = rw (find_letter-letter_marks n h, letter)

    -- What is heard from a long silence on.
    abbrev Hears : List Signal → List ℕ → Type 0
    Hears signals heard =
        (count : ℕ) (marks : List Mark)
        → 2 * unit ≤ count
        → listen marks false count (waves unit signals) ≡ letter marks ++ heard

    listen-next :
        (n c : ℕ) (signals : List Signal) (heard : List ℕ)
        → n < 26
        → b'A' + n ≡ c
        → Hears signals heard
        → Hears (letter_signals n ++ signals) (c ∷ heard)
    listen-next n c signals heard h same later count marks long_enough =
        listen-letter_signals n count marks signals h long_enough
        ∙ ap (λ r. letter marks ++ r)
            (later (3 * unit) (letter_marks n) (omega arith)
              ∙ ap (λ r. r ++ heard) (letter-letter_marks n h))
        ∙ ap (λ d. letter marks ++ (d ∷ heard)) same

    pub listen-text : (text : List ℕ) → Hears (text_signals text) (letters text)
    unfolding text_signals waves letters listen
    listen-text [] count marks h = sym (append-nil (letter marks))
    listen-text (c ∷ text) count marks h = elim (Bool-cases (is_upper c)) [
      | inl upper ↦ rw upper (
          listen-next (c - b'A') c (text_signals text) (letters text) (ground arith) (ground arith)
            (listen-text text) count marks h)
      | inr other ↦ elim (Bool-cases (is_lower c)) [
        | inl lower ↦
            rw (other, lower)
              (listen-next (c - b'a') (c - 32) (text_signals text) (letters text) (ground arith)
                (ground arith) (listen-text text) count marks h)
        | inr neither ↦ rw (other, neither) (listen-text text count marks h)
      ]
    ]
