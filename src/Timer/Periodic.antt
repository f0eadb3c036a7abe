-- ===== src/Timer/Periodic.antt =====
-- timer/periodic_timer.c: ktfun, init_module and cleanup_module. The kernel's time and the timer are
-- the state; HZ is an argument, as is when a timer can be called.
pub mod Steps
pub mod Laws
use kernel_examples.Prelude.{
  ℕ, ◌+◌, ◌-◌, ◌*◌, ◌^◌, Bool, true, false, Option, none, some, List, [], ◌∷◌, ltb, ◌&&◌,
  if◌then◌else◌, ◌>>=◌,
}
use kernel_examples.Prelude.Int.{ℤ, pos}
use kernel_examples.Kernel.{u64}

-- jiffies, timer.expires and whether the timer is pending, `data`, and what ktfun printed, the last
-- line first: period and elapsed time.
pub record System : Type 0 where
  pub jiffies : ℕ
  pub expires : ℕ
  pub pending : Bool
  pub period : ℕ
  pub start_time : ℕ
  pub printed : List (ℕ × ℕ)

-- The difference of two words.
abbrev pub since : ℕ → ℕ → ℕ
since a b = u64 (a + 2 ^ 64 - b)

-- mod_timer makes the timer pending.
pub ktfun : System → System
ktfun s = record s {
  expires = u64 (s.period + s.jiffies);
  pending = true;
  printed = (s.period, since s.jiffies s.start_time) ∷ s.printed;
}

pub init_module : ℕ → System → ℤ × System
init_module hz s = (
  pos 0,
  record s {
    period = u64 (2 * hz);
    expires = u64 (s.jiffies + u64 (2 * hz));
    start_time = s.jiffies;
    pending = true;
  },
)

-- What del_timer_sync answers is printed: whether the timer was pending.
pub cleanup_module : System → ℤ × System
cleanup_module s = (if s.pending then pos 1 else pos 0, record s { pending = false })

-- The kernel's clock ticks, and it calls a pending timer.
pub data Event : Type 0 where
  tick expire : Event

-- Whether a timer can be called, from jiffies and the time that it was set to, is the kernel's.
module _ (is_due : ℕ → ℕ → Bool) where
  pub step : Event → System → Option System
  unfolding ktfun
  step tick s = some (record s { jiffies = u64 (s.jiffies + 1) })
  step expire s =
      if s.pending && is_due s.jiffies s.expires
      then some (ktfun (record s { pending = false }))
      else none

  pub run : List Event → System → Option System
  run [] s = some s
  run (e ∷ events) s = step e s >>= run events
