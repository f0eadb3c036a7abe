-- ===== src/Timer/Periodic/Steps.antt =====
-- timer/periodic_timer.c: a tick and a call, each by itself.
use kernel_examples.Prelude.{
  ℕ, suc, ◌+◌, ◌*◌, ◌^◌, ◌≤◌, ◌<◌, ◌≡◌, refl, ap, ◌∙◌, arith, Bool, true, false, none, some, List,
  [], ◌∷◌, length, OnSome, leb, lt→leb, le→leb,
}
use kernel_examples.Kernel.{u64}
use kernel_examples.Timer.Periodic.{System, since, ktfun, Event, tick, expire, step}

abbrev pub is_tick : Event → ℕ
is_tick tick = 1
is_tick expire = 0

abbrev pub ticks : List Event → ℕ
ticks [] = 0
ticks (e ∷ events) = is_tick e + ticks events

-- The lines of a period, the last one first: none of them comes too early.
unfoldable pub IsInTime : ℕ → List (ℕ × ℕ) → Type 0
IsInTime period [] = Unit
IsInTime period ((p, elapsed) ∷ printed) =
    (p ≡ period) × (suc (length printed) * period ≤ elapsed) × IsInTime period printed

-- So many ticks after loading, with the next call `due` ticks after loading.
abbrev pub IsPeriodic : ℕ → ℕ → ℕ → System → Type 0
IsPeriodic period n due s =
    (s.jiffies ≡ u64 (s.start_time + n))
    × (s.start_time < 2 ^ 64)
    × (s.period ≡ period)
    × (s.pending ≡ true)
    × (s.expires ≡ u64 (s.start_time + due))
    × (suc (length s.printed) * period ≤ due)
    × (due ≤ n + period)
    × IsInTime period s.printed

-- What is relied on for when a timer is called: times less than 2^62 ticks apart are told apart also
-- where the words wrap round, and a timer is called at its time or later, never before.
abbrev pub IsDueTest : (ℕ → ℕ → Bool) → Type 0
IsDueTest is_due =
    (start a b : ℕ)
    → a ≤ b + 2 ^ 62
    → b ≤ a + 2 ^ 62
    → is_due (u64 (start + a)) (u64 (start + b)) ≡ leb b a

since-start : (start a : ℕ) → start < 2 ^ 64 → a < 2 ^ 64 → since (u64 (start + a)) start ≡ a
since-start start a h k = omega arith

pub mul-suc : (n p : ℕ) → suc n * p ≡ n * p + p
mul-suc n p = omega arith

module _ (is_due : ℕ → ℕ → Bool) (tells : IsDueTest is_due) where
  pub step-tick :
      (period n due : ℕ) (s : System)
      → IsPeriodic period n due s
      → OnSome (IsPeriodic period (n + 1) due) (step is_due tick s)
  unfolding step
  step-tick period n due s (j, st, p, on, x, calls, next, printed) =
      (omega arith, st, p, on, x, calls, omega arith, printed)

  -- The state behind a call is the one before it with what ktfun sets.
  pub fired :
      (period n due : ℕ) (s : System)
      → IsPeriodic period n due s
      → due ≤ n
      → n < 2 ^ 62
      → (t : System) × (step is_due expire s ≡ some t)
        × IsPeriodic period n (n + period) t
        × (length t.printed ≡ suc (length s.printed))
  unfolding step ktfun IsInTime
  fired period n due s (j, st, p, on, x, calls, next, printed) h k =
      let called = ktfun (record s { pending = false }) in
      let is_now : is_due s.jiffies s.expires ≡ true =
        rw (j, x, tells s.start_time n due (omega arith) (omega arith)) (le→leb due n h) in
      let elapsed : since s.jiffies s.start_time ≡ n =
        ap (λ a. since a s.start_time) j ∙ since-start s.start_time n st (omega arith) in
      let more = mul-suc (suc (length s.printed)) period in
      (
        called,
        rw (on, is_now) refl,
        (j, st, p, refl, omega arith, omega arith, omega arith, (p, omega arith, printed)),
        refl,
      )

  pub waits :
      (period n due : ℕ) (s : System)
      → IsPeriodic period n due s
      → n < due
      → period ≤ 2 ^ 62
      → step is_due expire s ≡ none
  unfolding step
  waits period n due s (j, st, p, on, x, calls, next, printed) h k =
      let not_yet : is_due s.jiffies s.expires ≡ false =
        rw (j, x, tells s.start_time n due (omega arith) (omega arith)) (lt→leb due n h) in
      rw (on, not_yet) refl
