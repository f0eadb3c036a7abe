-- ===== src/Timer/Tests.antt =====
-- timer: a call that is late, and two writes without the timer between them.
use kernel_examples.Prelude.{
  false, ℕ, Bool, ltb, ◌^◌, ◌+◌, ◌<◌, ◌≤◌, ltb→lt, ltb→le, lt→ltb, le→ltb, lt→leb, le→leb,
  Bool-cases, inl, inr, sym, ◌∙◌, ◌≡◌, arith, true, none, some, List, [], ◌∷◌, OnSome,
}
use kernel_examples.Kernel.{nothing, u64}
use kernel_examples.Timer.Periodic
use kernel_examples.Timer.Periodic.{tick, expire}
use kernel_examples.Timer.Periodic.Steps.{IsDueTest}
use kernel_examples.Timer.Periodic.Laws.{boot, IsTimely, run-IsTimely}
use kernel_examples.Timer.Driver
use kernel_examples.Timer.Driver.Laws.{run-RunEnds}

-- With two ticks a second, loaded two ticks before jiffies wraps round: a call at the fifth tick.
abbrev events : List Periodic.Event
events = tick ∷ tick ∷ tick ∷ tick ∷ tick ∷ expire ∷ tick ∷ []

-- time_after_eq: the difference of the words is less than half of them.
abbrev time_after_eq : ℕ → ℕ → Bool
time_after_eq a b = ltb (Periodic.since a b) (2 ^ 63)

late :
    (start a b : ℕ)
    → b ≤ a
    → a ≤ b + 2 ^ 62
    → time_after_eq (u64 (start + a)) (u64 (start + b)) ≡ true
late start a b h k =
    lt→ltb (Periodic.since (u64 (start + a)) (u64 (start + b))) (2 ^ 63) (omega arith)

early :
    (start a b : ℕ)
    → a < b
    → b ≤ a + 2 ^ 62
    → time_after_eq (u64 (start + a)) (u64 (start + b)) ≡ false
early start a b h k =
    le→ltb (Periodic.since (u64 (start + a)) (u64 (start + b))) (2 ^ 63) (omega arith)

time_after_eq-IsDueTest : IsDueTest time_after_eq
time_after_eq-IsDueTest start a b h k = elim (Bool-cases (ltb a b)) [
  | inl before ↦ let below = ltb→lt a b before in early start a b below k ∙ sym (lt→leb b a below)
  | inr after ↦ let above = ltb→le a b after in late start a b above h ∙ sym (le→leb b a above)
]

run-IsTimely_example :
    OnSome
      (IsTimely time_after_eq time_after_eq-IsDueTest 4 6)
      (Periodic.run time_after_eq events (Periodic.init_module 2 (boot 18446744073709551614)).1)
run-IsTimely_example =
    run-IsTimely time_after_eq time_after_eq-IsDueTest events 2 18446744073709551614 (omega arith)
      (omega arith)

abbrev hasty : List Driver.Event
hasty = Driver.write 7 3 ∷ Driver.expire ∷ Driver.write 260 3 ∷ Driver.write 261 3 ∷ []

run-RunEnds_example :
    (Driver.run 250 hasty Driver.idle ≡ none)
    × (Driver.my_exit ((Driver.my_init true nothing).1, Driver.idle) ≡ some (nothing, Driver.idle))
run-RunEnds_example = run-RunEnds 250 hasty nothing Driver.idle (omega arith)
