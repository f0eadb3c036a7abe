-- ===== src/Morse/Write/Laws.antt =====
-- io_port/morse_io.c: m_write on every branch.
use kernel_examples.Prelude.{
  ℕ, zero, suc, ◌+◌, ◌-◌, ◌≤◌, ◌≡◌, refl, ap, ◌∙◌, subst, arith, Bool, true, false, Option, none,
  some, List, [], ◌∷◌, ◌++◌, length, take, replicate, memcpy, blit, lt→leb, All, length-append,
  length-replicate, length-take, memcpy_in, append-nil,
}
use kernel_examples.Morse.Code.{Signal}
use kernel_examples.Morse.Code.Alphabet.{letters}
use kernel_examples.Morse.Code.Laws.{
  IsText, hear, text_signals, morse-text_signals, hear-text_signals,
}
use kernel_examples.Morse.Speaker.{Machine}
use kernel_examples.Morse.Speaker.{send_all}
use kernel_examples.Morse.Write.{m_write}

blit-append_at :
    (xs ys : List ℕ) (y z : ℕ) → blit (xs ++ (y ∷ ys)) (length xs) (z ∷ []) ≡ xs ++ (z ∷ ys)
blit-append_at [] [] y z = refl
blit-append_at [] (x ∷ ys) y z = refl
blit-append_at (x ∷ xs) ys y z = ap (λ r. x ∷ r) (blit-append_at xs ys y z)

-- The zero byte behind what was copied, where a byte was missed.
ends_text :
    (xs : List ℕ) (n : ℕ)
    → memcpy (xs ++ replicate (suc n) 0) (length xs) (0 ∷ []) 0 1 ≡ some (xs ++ (0 ∷ replicate n 0))
ends_text xs n =
    memcpy_in (xs ++ replicate (suc n) 0) (length xs) (0 ∷ []) 0 1
      (omega (arith, length-append {A = ℕ} xs (replicate (suc n) 0), length-replicate {A = ℕ} n 0))
      (omega arith)
    ∙ ap some (blit-append_at xs (replicate n 0) 0 0)

ends_copied :
    (xs : List ℕ) (n len : ℕ)
    → length xs ≡ len
    → memcpy (xs ++ replicate (suc n) 0) len (0 ∷ []) 0 1 ≡ some (xs ++ (0 ∷ replicate n 0))
ends_copied xs n len e =
    subst
      (λ k. memcpy (xs ++ replicate (suc n) 0) k (0 ∷ []) 0 1 ≡ some (xs ++ (0 ∷ replicate n 0))) e
      (ends_text xs n)

past_memory : (xs : List ℕ) (len : ℕ) → length xs ≡ len → memcpy (xs ++ []) len (0 ∷ []) 0 1 ≡ none
past_memory xs len e = rw (append-nil xs, lt→leb (len + 1) (length xs) (omega arith), memcpy)

-- A write that was copied to its last byte puts its zero byte outside the memory.
pub m_write_whole :
    (hz minor : ℕ) (buffer : List ℕ) (m : Machine) → m_write hz true 0 minor buffer m ≡ none
unfolding m_write
m_write_whole hz minor buffer m = rw (
    past_memory (take (length buffer - 0) buffer) (length buffer - 0)
      (omega (arith, length-take {A = ℕ} (length buffer - 0) buffer)))

-- Where a byte was missed, what was copied is played.
pub m_write_part :
    (hz n minor : ℕ) (buffer : List ℕ) (m : Machine)
    → suc n ≤ length buffer
    → All IsText (take (length buffer - suc n) buffer)
    → let len = length buffer - suc n in
      m_write hz true (suc n) minor buffer m
      ≡ some (len, send_all hz (minor + 1) (text_signals (take len buffer)) m)
unfolding m_write
m_write_part hz n minor buffer m h t =
    let len = length buffer - suc n in
    rw (
      ends_copied (take len buffer) n len (omega (arith, length-take {A = ℕ} len buffer)),
      morse-text_signals (take len buffer) (replicate n 0) t,
    )

-- Without memory nothing is played.
pub m_write_refused :
    (hz missed minor : ℕ) (buffer : List ℕ) (m : Machine)
    → m_write hz false missed minor buffer m ≡ some (0, m)
unfolding m_write
m_write_refused hz missed minor buffer m = refl

-- What m_write does, by what was granted and how many bytes were missed.
abbrev MWriteEnds : ℕ → Bool → ℕ → ℕ → List ℕ → Machine → Option (ℕ × Machine) → Type 0
MWriteEnds hz false missed minor buffer m r = r ≡ some (0, m)
MWriteEnds hz true zero minor buffer m r = r ≡ none
MWriteEnds hz true (suc n) minor buffer m r =
    (signals : List Signal) × (r ≡ some (length buffer - suc n, send_all hz (minor + 1) signals m))
    × (hear [] signals ≡ letters (take (length buffer - suc n) buffer))

-- A write of nonzero bytes that could be allocated and was copied to its last byte puts its zero byte outside
-- the memory. Where a byte was missed, the write returns the number of bytes copied and plays
-- signals in which a listener hears exactly their letters; without memory it returns 0 and plays
-- nothing.
m_write_lem :
    (hz : ℕ) (granted : Bool) (missed minor : ℕ) (buffer : List ℕ) (m : Machine)
    → missed ≤ length buffer
    → All IsText (take (length buffer - missed) buffer)
    → MWriteEnds hz granted missed minor buffer m (m_write hz granted missed minor buffer m)
m_write_lem hz false missed minor buffer m h t = m_write_refused hz missed minor buffer m
m_write_lem hz true zero minor buffer m h t = m_write_whole hz minor buffer m
m_write_lem hz true (suc n) minor buffer m h t = (
  _,
  m_write_part hz n minor buffer m h t,
  hear-text_signals (take (length buffer - suc n) buffer),
)
