-- ===== src/Device/Gpio.antt =====
-- io_port/gpio_legacy_led.c: the number of lines of the kernel and its answers are arguments.
pub mod Laws
use kernel_examples.Prelude.{
  ◌%◌, ◌^◌, ℕ, zero, suc, ◌+◌, ◌-◌, ◌≤◌, ◌<◌, ◌≡◌, ◌≢◌, refl, sym, ap, ◌∙◌, arith, Bool, true,
  false, Bool-cases, inl, inr, Option, none, some, ◌==◌, eq→==, ne→==, ltb, lt→ltb, le→ltb, leb,
  le→leb, lt→leb, if◌then◌else◌, ◌>>=◌,
}
use kernel_examples.Prelude.Int.{ℤ, pos, negsuc, ◌+ℤ◌, ◌-ℤ◌}
use kernel_examples.Kernel.{
  Ledger, signed32, acquire, release, gpio_line, gpio_export, fail, release-acquire,
  release-acquire_under, release_not_held,
}

abbrev pub bcm2835_num_gpios : ℕ
bcm2835_num_gpios = 54

abbrev pub enodev : ℕ
enodev = 19

-- gpio_no, the values of the lines, and what is held.
pub record Board : Type 0 where
  pub gpio_no : ℤ
  pub value : ℤ → ℕ
  pub held : Ledger

abbrev pub is_same : ℤ → ℤ → Bool
is_same (pos n) (pos m) = n == m
is_same (negsuc n) (negsuc m) = n == m
is_same _ _ = false

-- gpio_direction_output and gpio_set_value.
abbrev pub set_value : ℤ → ℕ → Board → Board
set_value line v b = record b { value = λ n. if is_same n line then v else b.value n }

abbrev pub gpio_is_valid : ℕ → ℤ → Bool
gpio_is_valid arch_nr_gpios (pos n) = ltb n arch_nr_gpios
gpio_is_valid arch_nr_gpios (negsuc n) = false

-- A sum in an int.
abbrev pub int_of : ℤ → ℤ
int_of (pos n) = signed32 (n % 2 ^ 32)
int_of (negsuc n) = signed32 (2 ^ 32 - 1 - n % 2 ^ 32)

-- gpio_request and gpio_export answer whether they succeed, which is not looked at; `drives` is whether
-- gpio_direction_output and gpio_set_value reach the line.
pub my_init : ℕ → Bool → Bool → Bool → Board → ℤ × Board
my_init arch_nr_gpios gpio_request exported drives b =
    let line = int_of ((pos arch_nr_gpios -ℤ pos bcm2835_num_gpios) +ℤ b.gpio_no) in
    let named = record b { gpio_no = line } in
    let requested = if gpio_request then acquire gpio_line b.held else b.held in
    let shown = if exported then acquire gpio_export requested else requested in
    if gpio_is_valid arch_nr_gpios line
    then (let ready = record named { held = shown } in
        (pos 0, if drives then set_value line 1 ready else ready))
    else (fail enodev, named)

-- Giving back a line or a file that is not there is a fault, `none`.
pub my_exit : Bool → Board → Option Board
my_exit drives b = do
  hidden ← release gpio_export b.held
  freed ← release gpio_line hidden
  some (record (if drives then set_value b.gpio_no 0 b else b) { held = freed })
