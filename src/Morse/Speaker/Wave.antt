-- ===== src/Morse/Speaker/Wave.antt =====
-- io_port/morse_io.c: what there is to hear of the signals, jiffy by jiffy.
use Prim.Native.Nat.{bit_and, bit_or}
use kernel_examples.Prelude.{
  ℕ, ◌*◌, ◌/◌, ◌%◌, ◌<◌, ◌≡◌, refl, length, ap, ap₂, sym, ◌∙◌, arith, Bool, true, false, not, ◌&&◌,
  List, [], ◌∷◌, ◌++◌, append-nil, append_assoc, replicate, ◌==◌, if◌then◌else◌, passes,
  table_entry, eq→==,
}
use kernel_examples.Morse.Code.{Signal, dot, dash, letter_space, word_space}
use kernel_examples.Morse.Speaker.{
  Machine, morse_tone_on, sounds, sound, nosound, morse_mdelay, send_dot, send_dash,
  send_letter_space, send_word_space, send, send_all,
}
use kernel_examples.Morse.Speaker.Laws.{silenced, pio-sound-nosound, wave-sound, timeout-sound}

abbrev pub tone_wave : ℕ → ℕ → List Bool
tone_wave long_ gap = replicate long_ true ++ replicate gap false

-- A signal, where a unit of 60 ms has `unit` jiffies.
abbrev pub signal_wave : ℕ → Signal → List Bool
signal_wave unit dot = tone_wave unit unit
signal_wave unit dash = tone_wave (3 * unit) unit
signal_wave unit letter_space = replicate (2 * unit) false
signal_wave unit word_space = replicate (4 * unit) false

unfoldable pub waves : ℕ → List Signal → List Bool
waves unit [] = []
waves unit (s ∷ signals) = signal_wave unit s ++ waves unit signals

-- The speaker is off, the port holds a byte, and no signal comes: the task sleeps as long as it asks.
pub record IsSilent (m : Machine) : Type 0 where
  pub undisturbed : (now jiffies : ℕ) → m.schedule_timeout now jiffies ≡ jiffies
  pub byte : m.pio < 256
  pub off : m.pio % 4 ≡ 0

-- A byte whose two low bits are clear neither sounds nor is left as it is by `sound`, and sounds then.
abbrev turns_on : ℕ → Bool
turns_on v =
    if v % 4 == 0
    then (bit_and v morse_tone_on == 0) && (sounds (bit_or v morse_tone_on) && not (sounds v))
    else true

turns_on_table : passes 0 256 turns_on ≡ true
unfolding passes
turns_on_table = refl

both_of_and : (a b : Bool) → (a && b) ≡ true → (a ≡ true) × (b ≡ true)
both_of_and true true h = (refl, refl)
both_of_and true false h = cc
both_of_and false b h = cc

quiet_of_not : (b : Bool) → not b ≡ true → b ≡ false
quiet_of_not true h = cc
quiet_of_not false h = refl

module _ (m : Machine) (silent : IsSilent m) where
  all_bits :
      ((bit_and m.pio morse_tone_on == 0) ≡ true)
      × (sounds (bit_or m.pio morse_tone_on) ≡ true)
      × (sounds m.pio ≡ false)
  all_bits =
      let entry : turns_on m.pio ≡ true =
        table_entry 256 turns_on turns_on_table m.pio silent.byte in
      let (clear, rest) = both_of_and _ _ (rw (eq→== (m.pio % 4) 0 silent.off) at entry) in
      let (loud, quiet) = both_of_and _ _ rest in (clear, loud, quiet_of_not _ quiet)

  sounds-sound : (freq : ℕ) → sounds (sound freq m).pio ≡ true
  unfolding sound
  sounds-sound freq = rw (all_bits.0) all_bits.1

-- A sleep that no signal ends lasts as long as was asked for.
wave-morse_mdelay :
    (hz ms : ℕ) (m : Machine)
    → ((now jiffies : ℕ) → m.schedule_timeout now jiffies ≡ jiffies)
    → (morse_mdelay hz ms m).wave ≡ m.wave ++ replicate (ms * hz / 1000) (sounds m.pio)
unfolding morse_mdelay
wave-morse_mdelay hz ms m undisturbed =
    ap (λ n. m.wave ++ replicate n (sounds m.pio)) (undisturbed (length m.wave) (ms * hz / 1000))

-- What a tone leaves: the speaker is silent again, and there was the tone and the gap to hear.
module _ (m : Machine) (silent : IsSilent m) (hz freq ms : ℕ) where
  abbrev toned : Machine
  toned = morse_mdelay hz 60 (nosound (morse_mdelay hz ms (sound freq m)))

  toned-IsSilent : IsSilent toned
  unfolding morse_mdelay nosound
  toned-IsSilent =
      let e : toned.pio ≡ silenced m.pio = unfold nosound in pio-sound-nosound freq m silent.byte in
      record {
        undisturbed = λ now jiffies.
            ap (λ f. f now jiffies) (timeout-sound freq m) ∙ silent.undisturbed now jiffies;
        byte = omega (arith, silent.byte);
        off = omega (arith, silent.off);
      }

  wave-toned : toned.wave ≡ m.wave ++ tone_wave (ms * hz / 1000) (60 * hz / 1000)
  unfolding morse_mdelay nosound
  wave-toned =
      let quiet : sounds toned.pio ≡ false = (all_bits toned toned-IsSilent).2 in
      let loud : sounds (sound freq m).pio ≡ true = sounds-sound m silent freq in
      let on : Machine = morse_mdelay hz ms (sound freq m) in
      let last : toned.wave ≡ on.wave ++ replicate (60 * hz / 1000) (sounds toned.pio) =
        wave-morse_mdelay hz 60 (nosound on) toned-IsSilent.undisturbed in
      let first : on.wave
          ≡ (sound freq m).wave ++ replicate (ms * hz / 1000) (sounds (sound freq m).pio) =
        wave-morse_mdelay hz ms (sound freq m) toned-IsSilent.undisturbed in
      last
      ∙ ap (λ w. w ++ replicate (60 * hz / 1000) (sounds toned.pio)) first
      ∙ ap₂
          (λ b c.
            (b ++ replicate (ms * hz / 1000) c) ++ replicate (60 * hz / 1000) (sounds toned.pio))
          (wave-sound freq m) loud
      ∙ ap (λ c. (m.wave ++ replicate (ms * hz / 1000) true) ++ replicate (60 * hz / 1000) c) quiet
      ∙ append_assoc m.wave _ _

module _ (hz k minor_no : ℕ) (ticks : hz ≡ 50 * k) where
  abbrev Sends : Signal → Machine → Type 0
  Sends s m =
      IsSilent (send hz minor_no s m)
      × ((send hz minor_no s m).wave ≡ m.wave ++ signal_wave (3 * k) s)

  send-Sends : (s : Signal) (m : Machine) → IsSilent m → Sends s m
  unfolding send send_dot send_dash send_letter_space send_word_space
  send-Sends dot m silent = (
    toned-IsSilent m silent hz (2000 * minor_no) 60,
    wave-toned m silent hz (2000 * minor_no) 60
        ∙ ap₂ (λ a b. m.wave ++ tone_wave a b) (omega arith) (omega arith),
  )
  send-Sends dash m silent = (
    toned-IsSilent m silent hz (2000 * minor_no) 180,
    wave-toned m silent hz (2000 * minor_no) 180
        ∙ ap₂ (λ a b. m.wave ++ tone_wave a b) (omega arith) (omega arith),
  )
  send-Sends letter_space m silent = (
    unfold morse_mdelay in
        record { undisturbed = silent.undisturbed; byte = silent.byte; off = silent.off },
    wave-morse_mdelay hz 120 m silent.undisturbed
        ∙ ap₂ (λ n b. m.wave ++ replicate n b) (omega arith) (all_bits m silent).2,
  )
  send-Sends word_space m silent = (
    unfold morse_mdelay in
        record { undisturbed = silent.undisturbed; byte = silent.byte; off = silent.off },
    wave-morse_mdelay hz 240 m silent.undisturbed
        ∙ ap₂ (λ n b. m.wave ++ replicate n b) (omega arith) (all_bits m silent).2,
  )

  pub send_all-IsSilent :
      (signals : List Signal) (m : Machine) → IsSilent m → IsSilent (send_all hz minor_no signals m)
  unfolding send_all
  send_all-IsSilent [] m silent = silent
  send_all-IsSilent (s ∷ signals) m silent =
      send_all-IsSilent signals (send hz minor_no s m) (send-Sends s m silent).0

  -- From a silent speaker, on a clock that ticks a multiple of 50 times a second, there is to hear
  -- what the signals are.
  pub wave-send_all :
      (signals : List Signal) (m : Machine)
      → IsSilent m
      → (send_all hz minor_no signals m).wave ≡ m.wave ++ waves (3 * k) signals
  unfolding send_all waves
  wave-send_all [] m silent = sym (append-nil m.wave)
  wave-send_all (s ∷ signals) m silent =
      let (quiet, first) = send-Sends s m silent in
      wave-send_all signals (send hz minor_no s m) quiet
      ∙ ap (λ w. w ++ waves (3 * k) signals) first
      ∙ append_assoc m.wave (signal_wave (3 * k) s) (waves (3 * k) signals)
