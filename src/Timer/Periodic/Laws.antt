-- ===== src/Timer/Periodic/Laws.antt =====
-- timer/periodic_timer.c: the timer never stops by itself, and the times that it prints.
use kernel_examples.Prelude.{
  ℕ, zero, suc, ◌+◌, ◌*◌, ◌^◌, ◌≤◌, ◌<◌, ◌≡◌, refl, sym, ap, subst, arith, Bool, true, false,
  Bool-cases, Option-cases, inl, inr, none, some, List, [], ◌∷◌, ◌++◌, length, replicate, OnSome,
  OnSome-map, ltb, ltb→lt, ltb→le,
}
use kernel_examples.Prelude.Int.{pos}
use kernel_examples.Kernel.{u64}
use kernel_examples.Timer.Periodic.{
  System, init_module, cleanup_module, Event, tick, expire, step, run,
}
use kernel_examples.Timer.Periodic.Steps.{
  is_tick, ticks, IsInTime, IsPeriodic, IsDueTest, mul-suc, step-tick, fired, waits,
}

-- The states in which the module is loaded: any time, and nothing printed.
abbrev pub boot : ℕ → System
boot jiffies = record {
  jiffies = jiffies;
  expires = 0;
  pending = false;
  period = 0;
  start_time = 0;
  printed = [];
}

module _ (is_due : ℕ → ℕ → Bool) (tells : IsDueTest is_due) where
  -- The next call is due at some time.
  abbrev pub IsRunning : ℕ → ℕ → System → Type 0
  IsRunning period n s = (due : ℕ) × IsPeriodic period n due s

  IsRunning-same :
      (period n m : ℕ) (s : System) → n ≡ m → IsRunning period n s → IsRunning period m s
  IsRunning-same period n m s e r = subst (λ k. IsRunning period k s) e r

  step-IsRunning :
      (period : ℕ) (e : Event) (n : ℕ) (s : System)
      → IsRunning period n s
      → n < 2 ^ 62
      → period ≤ 2 ^ 62
      → OnSome (IsRunning period (n + is_tick e)) (step is_due e s)
  step-IsRunning period tick n s (due, h) k l =
      OnSome-map (step is_due tick s) (λ t after. (due, after))
        (step-tick is_due tells period n due s h)
  step-IsRunning period expire n s (due, h) k l = elim (Bool-cases (ltb n due)) [
    | inl early ↦
        subst (OnSome (IsRunning period (n + 0)))
          (sym (waits is_due tells period n due s h (ltb→lt n due early) l)) tt
    | inr late ↦
        let (t, stepped, after, counted) =
          fired is_due tells period n due s h (ltb→le n due late) k in
        subst (OnSome (IsRunning period (n + 0))) (sym stepped)
          (IsRunning-same period n (n + 0) t (omega arith) (n + period, after))
  ]

  run-IsRunning :
      (period : ℕ) (events : List Event) (n : ℕ) (s : System)
      → IsRunning period n s
      → n + ticks events < 2 ^ 62
      → period ≤ 2 ^ 62
      → OnSome (IsRunning period (n + ticks events)) (run is_due events s)
  unfolding run
  run-IsRunning period [] n s r h l = IsRunning-same period n (n + 0) s (omega arith) r
  run-IsRunning period (e ∷ events) n s r h l = elim (Option-cases (step is_due e s)) [
    | inl stuck ↦ rw stuck tt
    | inr (t, stepped) ↦
        let first =
          subst (OnSome (IsRunning period (n + is_tick e))) stepped
            (step-IsRunning period e n s r (omega arith) l) in
        rw stepped (
          OnSome-map (run is_due events t)
            (λ u after.
              IsRunning-same period (n + is_tick e + ticks events) (n + (is_tick e + ticks events))
                u (omega arith) after)
            (run-IsRunning period events (n + is_tick e) t first (omega arith) l))
  ]

  -- Waiting for so many ticks, and then the call.
  waited :
      (period count n due : ℕ) (s : System)
      → IsPeriodic period n due s
      → due ≤ n + count
      → n + count < 2 ^ 62
      → (t : System) × (run is_due (replicate count tick ++ (expire ∷ [])) s ≡ some t)
        × (length t.printed ≡ suc (length s.printed))
  unfolding run step
  waited period zero n due s h k l =
      let (t, stepped, after, counted) =
        fired is_due tells period n due s h (omega arith) (omega arith) in
      (t, rw stepped refl, counted)
  waited period (suc count) n due s h k l =
      waited period count (n + 1) due (record s { jiffies = u64 (s.jiffies + 1) })
        (step-tick is_due tells period n due s h) (omega arith) (omega arith)

  -- What holds so many ticks after loading.
  abbrev pub IsTimely : ℕ → ℕ → System → Type 0
  IsTimely period n t =
      (t.pending ≡ true)
      × (length t.printed * period ≤ n)
      × IsInTime period t.printed
      × ((u : System) × (run is_due (replicate period tick ++ (expire ∷ [])) t ≡ some u)
          × (length u.printed ≡ suc (length t.printed)))
      × ((cleanup_module t).0 ≡ pos 1)
      × (step is_due expire (cleanup_module t).1 ≡ none)

  IsRunning-IsTimely :
      (period n : ℕ) (t : System) → n + period < 2 ^ 62 → IsRunning period n t → IsTimely period n t
  unfolding cleanup_module step
  IsRunning-IsTimely period n t h (due, p) =
      let (j, st, e, on, x, calls, next, printed) = p in
      let more = mul-suc (length t.printed) period in
      (on, omega arith, printed, waited period period n due t p next h, rw on refl, refl)

  -- The kernel calls timers as is relied on. From loading at any time on, also if jiffies wraps round
  -- meanwhile, in every sequence of ticks and calls that lasts, with one period more, fewer than 2^62
  -- ticks: the timer is pending; it was called
  -- at most once each period; the n-th line that it printed has the period, and an elapsed time of at
  -- least n periods; one more period later the kernel can call it again, whatever happened before. Once
  -- unloaded, which prints that the timer was pending, it is not called any more.
  pub run-IsTimely :
      (events : List Event) (hz jiffies : ℕ)
      → jiffies < 2 ^ 64
      → ticks events + 2 * hz < 2 ^ 62
      → OnSome
          (IsTimely (2 * hz) (ticks events))
          (run is_due events (init_module hz (boot jiffies)).1)
  unfolding init_module IsInTime
  run-IsTimely events hz jiffies h k =
      let start = (init_module hz (boot jiffies)).1 in
      let period : u64 (2 * hz) ≡ 2 * hz = omega arith in
      let first : IsPeriodic (2 * hz) 0 (2 * hz) start = (
        omega arith,
        h,
        period,
        refl,
        ap (λ p. u64 (jiffies + p)) period,
        omega arith,
        omega arith,
        tt,
      ) in
      OnSome-map (run is_due events start)
        (λ t after.
          IsRunning-IsTimely (2 * hz) (ticks events) t k
            (IsRunning-same (2 * hz) (0 + ticks events) (ticks events) t (omega arith) after))
        (run-IsRunning (2 * hz) events 0 start (2 * hz, first) (omega arith) (omega arith))
