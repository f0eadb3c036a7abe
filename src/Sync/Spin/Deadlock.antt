-- ===== src/Sync/Spin/Deadlock.antt =====
-- synchronization/spindead.c: the deadlock that the module shows, and that no run avoids.
use kernel_examples.Prelude.{ℕ, ◌+◌, ◌≤◌, ◌≡◌, ◌≢◌, ◌⊎◌, inl, inr, refl, sym, ap, ◌∙◌, arith, some}
use kernel_examples.Sync.Spin.{
  Phase, locking, counting, testing, sleeping, unlocking, finished, System, started, Step, lock,
  increment, sleep, pass, unlock, Steps, stop, next,
}
use kernel_examples.Sync.Spin.Laws.{
  IsHeld, IsFree, Steps-IsHeld, past_lock, some_inj, counting_locking, testing_locking,
  unlocking_locking, none-some, move-IsHeld,
}

pub steps_taken : {s t : System} → Steps s t → ℕ
steps_taken (stop s) = 0
steps_taken (next s t u before last) = steps_taken before + 1

-- How many steps a thread has behind it.
abbrev behind : Phase → ℕ
behind locking = 0
behind counting = 1
behind testing = 2
behind sleeping = 3
behind unlocking = 3
behind finished = 4

-- The steps so far are those of the thread with the lock.
abbrev Taken : ℕ → System → Type 0
Taken n s =
    (IsFree s × (n ≡ 0)) ⊎ ((cpu : ℕ) × (p : Phase) × (held : IsHeld cpu p s) × (n ≡ behind p))

-- A thread that is past the lock has taken them all.
Taken-past_lock :
    (n cpu : ℕ) (p : Phase) (s : System)
    → Taken n s
    → s.phase cpu ≡ p
    → p ≢ locking
    → (held : IsHeld cpu p s) × (n ≡ behind p)
Taken-past_lock n cpu p s (inl (free, e)) at past = absurd (past (sym at ∙ free.2 cpu))
Taken-past_lock n cpu p s (inr (h, q, held, e)) at past =
    let held' = past_lock cpu p s (inr (h, q, held)) at past in
    let same : h ≡ cpu = some_inj h cpu (sym held.0 ∙ held'.0) in
    (held', e ∙ ap behind (sym held.1 ∙ ap s.phase same ∙ at))

Step-Taken : (n : ℕ) {s t : System} → Step s t → Taken n s → Taken (n + 1) t
Step-Taken n (lock cpu s at unheld) (inl (free, e)) = inr (
  cpu,
  counting,
  move-IsHeld cpu counting (record s { wrong_lock = some cpu }) refl free.1 (λ c ne. free.2 c),
  omega arith,
)
Step-Taken n (lock cpu s at unheld) (inr (h, q, held, e)) = absurd (none-some (sym unheld ∙ held.0))
Step-Taken n (increment cpu s at) k =
    let (held, e) = Taken-past_lock n cpu counting s k at counting_locking in
    inr (
      cpu,
      testing,
      move-IsHeld cpu testing (record s { count = s.count + 1 }) held.0 (omega (arith, held.2))
          held.3,
      omega arith,
    )
Step-Taken n (sleep cpu s at one) k =
    let (held, e) = Taken-past_lock n cpu testing s k at testing_locking in
    inr (cpu, sleeping, move-IsHeld cpu sleeping s held.0 held.2 held.3, omega arith)
Step-Taken n (pass cpu s at other) k =
    let (held, e) = Taken-past_lock n cpu testing s k at testing_locking in absurd (other held.2)
Step-Taken n (unlock cpu s at) k =
    let (held, e) = Taken-past_lock n cpu unlocking s k at unlocking_locking in absurd held.2

Steps-Taken : {s t : System} (steps : Steps s t) → Taken 0 s → Taken (steps_taken steps) t
unfolding steps_taken
Steps-Taken (stop s) k = k
Steps-Taken (next s t u before last) k = Step-Taken (steps_taken before) last (Steps-Taken before k)

-- The thread sleeps with the lock, all others wait for it, and none can go on.
pub record IsDead (cpu : ℕ) (s : System) : Type 0 where
  pub asleep : IsHeld cpu sleeping s
  pub final : (t : System) → Step s t → ⊥

-- Wherever the threads stand, one can go on, or all are dead.
goes_on : (s : System) → Steps started s → ((cpu : ℕ) × IsDead cpu s) ⊎ ((t : System) × Step s t)
goes_on s steps = by_stuck both.0
  where
    both :
        (IsFree s ⊎ ((cpu : ℕ) × (p : Phase) × IsHeld cpu p s))
        × ((cpu : ℕ) (t : System) → s.phase cpu ≡ sleeping → Step s t → ⊥)
    both = Steps-IsHeld s steps

    by_stuck :
        IsFree s ⊎ ((cpu : ℕ) × (p : Phase) × IsHeld cpu p s)
        → ((cpu : ℕ) × IsDead cpu s) ⊎ ((t : System) × Step s t)
    by_stuck (inl free) = inr (_, lock 0 s (free.2 0) free.0)
    by_stuck (inr (cpu, locking, held)) = absurd held.2
    by_stuck (inr (cpu, counting, held)) = inr (_, increment cpu s held.1)
    by_stuck (inr (cpu, testing, held)) = inr (_, sleep cpu s held.1 held.2)
    by_stuck (inr (cpu, sleeping, held)) =
        inl (cpu, record { asleep = held; final = λ t step. both.1 cpu t held.1 step })
    by_stuck (inr (cpu, unlocking, held)) = absurd held.2
    by_stuck (inr (cpu, finished, held)) = absurd held.2

at_most_three : (n : ℕ) (s : System) → Taken n s → n ≤ 3
at_most_three n s (inl (free, e)) = omega arith
at_most_three n s (inr (cpu, locking, held, e)) = omega arith
at_most_three n s (inr (cpu, counting, held, e)) = omega arith
at_most_three n s (inr (cpu, testing, held, e)) = omega arith
at_most_three n s (inr (cpu, sleeping, held, e)) = omega arith
at_most_three n s (inr (cpu, unlocking, held, e)) = omega arith
at_most_three n s (inr (cpu, finished, held, e)) = absurd held.2

-- However the threads of all cpus take turns: at most three steps are taken, and while no thread
-- sleeps with the lock, with every other one in front of it and none able to go on, one can go on.
-- So every run comes to that.
pub Steps-deadlock :
    (s : System) (steps : Steps started s)
    → (steps_taken steps ≤ 3) × (((cpu : ℕ) × IsDead cpu s) ⊎ ((t : System) × Step s t))
Steps-deadlock s steps = (
  at_most_three (steps_taken steps) s (Steps-Taken steps (inl ((refl, refl, λ c. refl), refl))),
  goes_on s steps,
)
