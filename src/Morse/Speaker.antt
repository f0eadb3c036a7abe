-- ===== src/Morse/Speaker.antt =====
-- io_port/morse_io.c: sound, nosound and the signals, on the ports of the PC speaker and its timer.
pub mod Laws
pub mod Wave
use Prim.Native.Nat.{bit_and, bit_or}
use kernel_examples.Prelude.{
  ℕ, ◌+◌, ◌*◌, ◌/◌, ◌%◌, ◌^◌, Bool, List, [], ◌∷◌, ◌++◌, length, replicate, ◌==◌, if◌then◌else◌,
}
use kernel_examples.Morse.Code.{Signal, dot, dash, letter_space, word_space}

abbrev pub morse_clk_freq : ℕ
morse_clk_freq = 1193180

abbrev pub morse_setup : ℕ
morse_setup = 0xb6

abbrev pub morse_tone_on : ℕ
morse_tone_on = 0x03

abbrev pub morse_tone_off : ℕ
morse_tone_off = 0xfc

abbrev pub morse_unit_time : ℕ
morse_unit_time = 60

abbrev pub morse_frequency : ℕ
morse_frequency = 2000

-- The speaker sounds when both bits are on.
abbrev pub sounds : ℕ → Bool
sounds value = bit_and value morse_tone_on == morse_tone_on

-- The byte of port 0x61, what was written to the timer's ports 0x43 and 0x42, in order, and what
-- there was to hear: for each jiffy slept, whether the speaker sounded. `schedule_timeout` is the
-- kernel's: how long it sleeps when it is called at a jiffy for so many, which is less where a signal
-- wakes the task.
pub record Machine : Type 0 where
  pub pio : ℕ
  pub pit_cmd : List ℕ
  pub pit_data : List ℕ
  pub wave : List Bool
  pub schedule_timeout : ℕ → ℕ → ℕ

-- `freq` is positive; the quotient is an int, and outb takes the low byte of what it is given.
pub sound : ℕ → Machine → Machine
sound freq m =
    let value = m.pio in
    let divisor = morse_clk_freq / freq in
    let m' =
      if bit_and value morse_tone_on == 0
      then record m { pio = bit_or value morse_tone_on; pit_cmd = m.pit_cmd ++ (morse_setup ∷ []) }
      else m in
    record m' { pit_data = m'.pit_data ++ (divisor % 256 ∷ divisor / 2 ^ 8 % 256 ∷ []) }

pub nosound : Machine → Machine
nosound m = record m { pio = bit_and m.pio morse_tone_off }

module _ (hz : ℕ) where
  -- `schedule_timeout((ms * HZ) / 1000)`, in a state in which signals wake the task.
  pub morse_mdelay : ℕ → Machine → Machine
  morse_mdelay ms m =
      let slept = m.schedule_timeout (length m.wave) (ms * hz / 1000) in
      record m { wave = m.wave ++ replicate slept (sounds m.pio) }

  pub send_dot : ℕ → Machine → Machine
  unfolding sound nosound morse_mdelay
  send_dot minor_no m =
      let on = morse_mdelay morse_unit_time (sound (morse_frequency * minor_no) m) in
      morse_mdelay morse_unit_time (nosound on)

  pub send_dash : ℕ → Machine → Machine
  unfolding sound nosound morse_mdelay
  send_dash minor_no m =
      let on = morse_mdelay (morse_unit_time * 3) (sound (morse_frequency * minor_no) m) in
      morse_mdelay morse_unit_time (nosound on)

  pub send_letter_space : Machine → Machine
  unfolding morse_mdelay
  send_letter_space m = morse_mdelay (morse_unit_time * 2) m

  pub send_word_space : Machine → Machine
  unfolding morse_mdelay
  send_word_space m = morse_mdelay (morse_unit_time * 4) m

  -- One signal, as `morse` sends it.
  pub send : ℕ → Signal → Machine → Machine
  unfolding send_dot send_dash send_letter_space send_word_space
  send minor_no dot m = send_dot minor_no m
  send minor_no dash m = send_dash minor_no m
  send minor_no letter_space m = send_letter_space m
  send minor_no word_space m = send_word_space m

  pub send_all : ℕ → List Signal → Machine → Machine
  send_all minor_no [] m = m
  send_all minor_no (s ∷ signals) m = send_all minor_no signals (send minor_no s m)
