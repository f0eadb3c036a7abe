-- ===== src/Morse/Tests.antt =====
-- io_port/morse_io.c on "sos" and a machine with the speaker off.
use kernel_examples.Prelude.{ℕ, ◌≡◌, refl, arith, true, some, List, [], ◌∷◌, ◌++◌}
use kernel_examples.Kernel.{nothing}
use kernel_examples.Morse.Code.{Signal, morse}
use kernel_examples.Morse.Code.Alphabet.{letters}
use kernel_examples.Morse.Code.Laws.{hear, hear-morse}
use kernel_examples.Morse.Speaker.{Machine}
use kernel_examples.Morse.Write.{m_write}
use kernel_examples.Morse.Listen.Write.{IsHeard, m_write-listen}
use kernel_examples.Morse.Setup.{Answers, Driver, morse_init}
use kernel_examples.Morse.Setup.Laws.{MorseEnds, morse_init_lem}

abbrev quiet : Machine
quiet = record {
  pio = 0x30;
  pit_cmd = [];
  pit_data = [];
  wave = [];
  schedule_timeout = λ now jiffies. jiffies;
}

abbrev sos : List ℕ
sos = b's' ∷ b'o' ∷ b's' ∷ []

hear-morse_example :
    (signals : List Signal) × (morse (sos ++ (0 ∷ 7 ∷ [])) ≡ some signals)
    × (hear [] signals ≡ letters sos)
hear-morse_example =
    hear-morse sos (7 ∷ [])
      ((omega arith, omega arith), ((omega arith, omega arith), ((omega arith, omega arith), tt)))

-- Of "sos" two bytes are copied.
m_write-listen_example : IsHeard 20 true 1 sos quiet (m_write 1000 true 1 0 sos quiet)
m_write-listen_example =
    m_write-listen 1000 20 true 1 0 sos quiet refl (omega arith)
      (record { undisturbed = λ now jiffies. refl; byte = omega arith; off = refl }) (omega arith)
      ((omega arith, omega arith), ((omega arith, omega arith), tt))

abbrev all_granted : Answers
all_granted = record { chrdev_region = true; dev_major = 240; cdev_alloc = true }

abbrev unloaded : Driver
unloaded = record { major_no = 0; held = nothing }

morse_init_lem_example : MorseEnds true true unloaded (morse_init all_granted unloaded)
morse_init_lem_example = morse_init_lem all_granted unloaded
