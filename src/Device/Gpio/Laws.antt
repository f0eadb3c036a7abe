-- ===== src/Device/Gpio/Laws.antt =====
-- io_port/gpio_legacy_led.c: which line is driven, and how loading and unloading end.
use kernel_examples.Prelude.{
  ℕ, ◌+◌, ◌-◌, ◌^◌, ◌≤◌, ◌<◌, ◌≡◌, ◌≢◌, refl, sym, ap, ◌∙◌, arith, Bool, true, false, Option, none,
  some, eq→==, ne→==, lt→ltb, le→ltb, le→leb, if◌then◌else◌, ◌&&◌, subst, true-false,
}
use kernel_examples.Prelude.Int.{ℤ, pos, sub_ℕ, ◌+ℤ◌, ◌-ℤ◌}
use kernel_examples.Kernel.{
  Ledger, signed32, signed32_small, acquire, gpio_line, gpio_export, fail, release-acquire,
  release_not_held, acquire_other,
}
use kernel_examples.Device.Gpio.{
  bcm2835_num_gpios, enodev, Board, is_same, int_of, my_init, my_exit,
}

sub_ℕ_le : (a b : ℕ) → b ≤ a → sub_ℕ a b ≡ pos (a - b)
sub_ℕ_le a b h = rw (le→leb b a h) refl

-- The line that the parameter stands for, among 54 or more.
line_of :
    (arch n : ℕ) → 54 ≤ arch → (pos arch -ℤ pos bcm2835_num_gpios) +ℤ pos n ≡ pos (arch - 54 + n)
unfolding ◌-ℤ◌ ◌+ℤ◌
line_of arch n h =
    ap (λ z. z +ℤ pos n) (sub_ℕ_le (arch + 0) (0 + 54) (omega arith))
    ∙ sub_ℕ_le (arch + 0 - (0 + 54) + n) (0 + 0) (omega arith)
    ∙ ap pos (omega arith)

int_of_line :
    (arch n : ℕ)
    → 54 ≤ arch
    → arch + n < 2 ^ 31
    → int_of ((pos arch -ℤ pos bcm2835_num_gpios) +ℤ pos n) ≡ pos (arch - 54 + n)
int_of_line arch n h small =
    ap int_of (line_of arch n h)
    ∙ ap signed32 (omega arith)
    ∙ signed32_small (arch - 54 + n) (omega arith)

-- How unloading ends where both were granted, and where not.
abbrev pub Unloads : Bool → Bool → ℕ → Board → Option Board → Type 0
Unloads true drives line b r =
    (after : Board) × (r ≡ some after)
    × (after.value (pos line) ≡ (if drives then 0 else b.value (pos line)))
    × (after.held ≡ b.held)
Unloads false drives line b r = r ≡ none

-- How loading ends on these answers with the line that is meant, and then unloading.
abbrev pub GpioEnds : Bool → Bool → Bool → ℕ → Board → ℤ × Board → Type 0
GpioEnds gpio_request exported drives line b r =
    (r.0 ≡ pos 0)
    × (r.1.value (pos line) ≡ (if drives then 1 else b.value (pos line)))
    × ((m : ℕ) → m ≢ line → r.1.value (pos m) ≡ b.value (pos m))
    × Unloads (gpio_request && exported) drives line b (my_exit drives r.1)

-- What is held behind loading, and the board.
abbrev taken : Bool → Bool → Ledger → Ledger
taken gpio_request exported l =
    let requested = if gpio_request then acquire gpio_line l else l in
    if exported then acquire gpio_export requested else requested

abbrev driven : Bool → Bool → ℕ → (ℤ → ℕ) → Ledger → Board
driven gpio_request exported line value l = record {
  gpio_no = pos line;
  value = value;
  held = taken gpio_request exported l;
}

abbrev switched_on : ℕ → (ℤ → ℕ) → ℤ → ℕ
switched_on line value m = if is_same m (pos line) then 1 else value m

abbrev released : Bool → ℕ → (ℤ → ℕ) → Ledger → Board
released drives line value l = record {
  gpio_no = pos line;
  value = if drives then (λ m. if is_same m (pos line) then 0 else value m) else value;
  held = l;
}

my_exit-driven :
    (drives : Bool) (line : ℕ) (value : ℤ → ℕ) (l : Ledger)
    → my_exit drives (driven true true line value l) ≡ some (released drives line value l)
unfolding my_exit
my_exit-driven true line value l =
    rw (release-acquire gpio_export (acquire gpio_line l), release-acquire gpio_line l) refl
my_exit-driven false line value l =
    rw (release-acquire gpio_export (acquire gpio_line l), release-acquire gpio_line l) refl

my_exit-not_driven :
    (request exported drives : Bool) (line : ℕ) (value : ℤ → ℕ) (l : Ledger)
    → (request && exported) ≡ false
    → l gpio_line ≡ 0
    → l gpio_export ≡ 0
    → my_exit drives (driven request exported line value l) ≡ none
unfolding my_exit
my_exit-not_driven true true drives line value l r e f = absurd (true-false r)
my_exit-not_driven true false drives line value l r e f =
    rw
      (release_not_held gpio_export (acquire gpio_line l)
        (acquire_other gpio_line gpio_export l (λ e. omega arith) ∙ f))
      refl
my_exit-not_driven false true drives line value l r e f =
    rw (release-acquire gpio_export l, release_not_held gpio_line l e) refl
my_exit-not_driven false false drives line value l r e f =
    rw (release_not_held gpio_export l f) refl

unloads :
    (request exported drives : Bool) (line : ℕ) (value : ℤ → ℕ) (b : Board)
    → b.held gpio_line ≡ 0
    → b.held gpio_export ≡ 0
    → (drives ≡ false → value (pos line) ≡ b.value (pos line))
    → Unloads
        (request && exported)
        drives
        line
        b
        (my_exit drives (driven request exported line value b.held))
unloads true true true line value b e f same = (
  released true line value b.held,
  my_exit-driven true line value b.held,
  rw (eq→== line line refl) refl,
  refl,
)
unloads true true false line value b e f same =
    (released false line value b.held, my_exit-driven false line value b.held, same refl, refl)
unloads true false drives line value b e f same =
    my_exit-not_driven true false drives line value b.held refl e f
unloads false exported drives line value b e f same =
    my_exit-not_driven false exported drives line value b.held refl e f

-- The board that loading leaves.
abbrev after : Bool → Bool → Bool → ℕ → Board → Board
after request exported drives line b =
    if drives
    then driven request exported line (switched_on line b.value) b.held
    else driven request exported line b.value b.held

after-GpioEnds :
    (request exported drives : Bool) (line : ℕ) (b : Board)
    → b.held gpio_line ≡ 0
    → b.held gpio_export ≡ 0
    → GpioEnds request exported drives line b (pos 0, after request exported drives line b)
after-GpioEnds request exported true line b e f = (
  refl,
  rw (eq→== line line refl) refl,
  λ m h. rw (ne→== m line h) refl,
  unloads request exported true line (switched_on line b.value) b e f
      (λ off. absurd (true-false off)),
)
after-GpioEnds request exported false line b e f =
    (refl, refl, λ m h. refl, unloads request exported false line b.value b e f (λ off. refl))

-- With at least the 54 lines of the chip, the last ones of the kernel's, none of them in use, and a sum
-- that an int holds: a number below 54 stands for the line with that number among them. It is switched
-- on where the kernel drives it, and no other is changed; unloading then switches it off, and gives
-- everything back. Loading succeeds also where the line or its file was refused, and unloading then
-- gives back what is not held. Any larger number makes loading fail with -ENODEV and changes no line.
pub my_init-GpioEnds :
    (arch n : ℕ) (request exported drives : Bool) (b : Board)
    → 54 ≤ arch
    → arch + n < 2 ^ 31
    → b.held gpio_line ≡ 0
    → b.held gpio_export ≡ 0
    → (n < 54
        → GpioEnds request exported drives
            (arch - 54 + n)
            b
            (my_init arch request exported drives (record b { gpio_no = pos n })))
      × (54 ≤ n
          → my_init arch request exported drives (record b { gpio_no = pos n })
            ≡ (fail enodev, record b { gpio_no = pos (arch - 54 + n) }))
unfolding my_init
my_init-GpioEnds arch n request exported drives b h small e f = (
  λ below.
      subst (GpioEnds request exported drives (arch - 54 + n) b)
        (sym (rw (int_of_line arch n h small, lt→ltb (arch - 54 + n) arch (omega arith)) refl))
        (after-GpioEnds request exported drives (arch - 54 + n) b e f),
  λ above. rw (int_of_line arch n h small, le→ltb (arch - 54 + n) arch (omega arith)) refl,
)
