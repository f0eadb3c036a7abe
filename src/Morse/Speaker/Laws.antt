-- ===== src/Morse/Speaker/Laws.antt =====
-- io_port/morse_io.c: what the signals leave on the ports.
use Prim.Native.Nat.{bit_and, bit_or}
use kernel_examples.Prelude.{
  ℕ, ◌-◌, ◌%◌, ◌<◌, ◌≡◌, refl, true, ◌==◌, passes, table_entry, ==→eq, Bool-cases, inl, inr,
}
use kernel_examples.Morse.Speaker.{Machine, morse_tone_on, morse_tone_off, sound, nosound}

-- The byte with its two low bits off.
abbrev pub silenced : ℕ → ℕ
silenced value = value - value % 4

off_table : passes 0 256 (λ v. bit_and v morse_tone_off == silenced v) ≡ true
unfolding passes
off_table = refl

off_lem : (v : ℕ) → v < 256 → bit_and v morse_tone_off ≡ silenced v
off_lem v h = ==→eq _ _ (table_entry 256 _ off_table v h)

on_off_table :
    passes 0 256 (λ v. bit_and (bit_or v morse_tone_on) morse_tone_off == silenced v) ≡ true
unfolding passes
on_off_table = refl

on_off_lem : (v : ℕ) → v < 256 → bit_and (bit_or v morse_tone_on) morse_tone_off ≡ silenced v
on_off_lem v h = ==→eq _ _ (table_entry 256 _ on_off_table v h)

pub pio-sound-nosound :
    (freq : ℕ) (m : Machine) → m.pio < 256 → (nosound (sound freq m)).pio ≡ silenced m.pio
unfolding sound nosound
pio-sound-nosound freq m h = elim (Bool-cases (bit_and m.pio morse_tone_on == 0)) [
  | inl off ↦ rw off (on_off_lem m.pio h)
  | inr on ↦ rw on (off_lem m.pio h)
]

pub wave-sound : (freq : ℕ) (m : Machine) → (sound freq m).wave ≡ m.wave
unfolding sound
wave-sound freq m = elim (Bool-cases (bit_and m.pio morse_tone_on == 0)) [
  | inl off ↦ rw off refl
  | inr on ↦ rw on refl
]

pub timeout-sound : (freq : ℕ) (m : Machine) → (sound freq m).schedule_timeout ≡ m.schedule_timeout
unfolding sound
timeout-sound freq m = elim (Bool-cases (bit_and m.pio morse_tone_on == 0)) [
  | inl off ↦ rw off refl
  | inr on ↦ rw on refl
]
