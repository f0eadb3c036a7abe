-- ===== src/Morse/Listen/Write.antt =====
-- io_port/morse_io.c: m_write, from the user's bytes to what the speaker lets hear.
use kernel_examples.Prelude.{
  ℕ, zero, suc, ◌+◌, ◌-◌, ◌*◌, ◌≤◌, ◌≡◌, refl, ◌∙◌, arith, Bool, true, false, Option, none, some,
  List, [], ◌++◌, length, take, All,
}
use kernel_examples.Morse.Code.Alphabet.{letters}
use kernel_examples.Morse.Code.Laws.{IsText, text_signals}
use kernel_examples.Morse.Speaker.{Machine, send_all}
use kernel_examples.Morse.Speaker.Wave.{IsSilent, waves, wave-send_all, send_all-IsSilent}
use kernel_examples.Morse.Write.{m_write}
use kernel_examples.Morse.Write.Laws.{m_write_whole, m_write_part, m_write_refused}
use kernel_examples.Morse.Listen.{letter, no_letter, listen, listen-text}

-- What there is to hear of a write, by what was granted and how many bytes were missed.
abbrev pub IsHeard : ℕ → Bool → ℕ → List ℕ → Machine → Option (ℕ × Machine) → Type 0
IsHeard k false missed buffer m r = r ≡ some (0, m)
IsHeard k true zero buffer m r = r ≡ none
IsHeard k true (suc n) buffer m r =
    (m' : Machine) × (wave : List Bool) × (r ≡ some (length buffer - suc n, m'))
    × IsSilent m'
    × (m'.wave ≡ m.wave ++ wave)
    × (listen (3 * k) [] false (2 * (3 * k)) wave ≡ letters (take (length buffer - suc n) buffer))

-- On a clock that ticks a multiple of 50 times a second, with the speaker off, no signal to the task while it sleeps,
-- and nonzero bytes in what is copied: a write that was allocated and copied to its last byte puts its zero byte outside
-- the memory. Where a byte was missed, the write returns how many were copied, and whoever listens to
-- the speaker from then on, jiffy by jiffy with a unit of 60 ms, hears exactly their letters in
-- upper case; behind it the speaker is off. Without memory it returns 0 and there is nothing to hear.
pub m_write-listen :
    (hz k : ℕ) (granted : Bool) (missed minor : ℕ) (buffer : List ℕ) (m : Machine)
    → hz ≡ 50 * k
    → 1 ≤ k
    → IsSilent m
    → missed ≤ length buffer
    → All IsText (take (length buffer - missed) buffer)
    → IsHeard k granted missed buffer m (m_write hz granted missed minor buffer m)
m_write-listen hz k false missed minor buffer m e p s h t = m_write_refused hz missed minor buffer m
m_write-listen hz k true zero minor buffer m e p s h t = m_write_whole hz minor buffer m
m_write-listen hz k true (suc n) minor buffer m e p s h t =
    let text = take (length buffer - suc n) buffer in
    (
      send_all hz (minor + 1) (text_signals text) m,
      waves (3 * k) (text_signals text),
      m_write_part hz n minor buffer m h t,
      send_all-IsSilent hz k (minor + 1) e (text_signals text) m s,
      wave-send_all hz k (minor + 1) e (text_signals text) m s,
      listen-text (3 * k) (omega arith) text (2 * (3 * k)) [] (omega arith)
          ∙ rw (no_letter, letter) refl,
    )
