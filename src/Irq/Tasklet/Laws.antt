-- ===== src/Irq/Tasklet/Laws.antt =====
-- irq/irq_delayed.c: no interrupt is lost to the tasklet and the work, and what unloading leaves.
use kernel_examples.Prelude.{
  ℕ, ◌+◌, ◌≤◌, ◌<◌, ◌≡◌, ◌^◌, refl, subst, arith, Bool, true, false, Bool-cases, Option-cases, inl,
  inr, Option, none, some, List, [], ◌∷◌, OnSome, OnSome-map, true-false, if◌then◌else◌,
}
use kernel_examples.Prelude.Int.{pos}
use kernel_examples.Kernel.{Ledger, irq_line, release-acquire, release_not_held}
use kernel_examples.Irq.Tasklet.{
  State, my_interrupt, t_func, w_func, Event, interrupt, tasklet, work, step, run, my_init, my_exit,
}

abbrev pub is_interrupt : Event → ℕ
is_interrupt (interrupt jiffies) = 1
is_interrupt tasklet = 0
is_interrupt work = 0

-- Interrupts among the events.
abbrev pub interrupts : List Event → ℕ
interrupts [] = 0
interrupts (e ∷ events) = is_interrupt e + interrupts events

abbrev queued : Bool → ℕ
queued q = if q then 1 else 0

-- After `n` interrupts: the counter shows them all; the tasklet and the work ran at most that often,
-- with what is queued counted; and whichever is not queued has seen the counter as it is.
abbrev pub IsAfter : ℕ → State → Type 0
IsAfter n s =
    (s.counter_th ≡ n)
    × (s.counter_bh + queued s.tasklet_queued ≤ n)
    × (s.counter_wq + queued s.work_queued ≤ n)
    × (s.tasklet_queued ≡ false → s.seen_by_tasklet ≡ n)
    × (s.work_queued ≡ false → s.seen_by_work ≡ n)

IsAfter-same : (n m : ℕ) (s : State) → n ≡ m → IsAfter n s → IsAfter m s
IsAfter-same n m s e a = subst (λ k. IsAfter k s) e a

IsAfter-t_func :
    (n : ℕ) (s : State) → IsAfter n s → n < 2 ^ 32 → s.tasklet_queued ≡ true → IsAfter n (t_func s)
unfolding t_func
IsAfter-t_func n s (th, bh, wq, tk, wk) h on =
    let ran = subst (λ q. s.counter_bh + queued q ≤ n) on bh in (th, omega arith, wq, λ e. th, wk)

IsAfter-w_func :
    (n : ℕ) (s : State) → IsAfter n s → n < 2 ^ 32 → s.work_queued ≡ true → IsAfter n (w_func s)
unfolding w_func
IsAfter-w_func n s (th, bh, wq, tk, wk) h on =
    let ran = subst (λ q. s.counter_wq + queued q ≤ n) on wq in (th, bh, omega arith, tk, λ e. th)

step-IsAfter :
    (e : Event) (n : ℕ) (s : State)
    → IsAfter n s
    → n + is_interrupt e < 2 ^ 32
    → OnSome (IsAfter (n + is_interrupt e)) (step e s)
unfolding step my_interrupt
step-IsAfter (interrupt jiffies) n s (th, bh, wq, tk, wk) h =
    (omega arith, omega arith, omega arith, λ e. absurd (true-false e), λ e. absurd (true-false e))
step-IsAfter tasklet n s a h = elim (Bool-cases s.tasklet_queued) [
  | inl on ↦
      rw on
        (IsAfter-same n (n + 0) (t_func s) (omega arith) (IsAfter-t_func n s a (omega arith) on))
  | inr off ↦ rw off tt
]
step-IsAfter work n s a h = elim (Bool-cases s.work_queued) [
  | inl on ↦
      rw on
        (IsAfter-same n (n + 0) (w_func s) (omega arith) (IsAfter-w_func n s a (omega arith) on))
  | inr off ↦ rw off tt
]

run-IsAfter_from :
    (events : List Event) (n : ℕ) (s : State)
    → IsAfter n s
    → n + interrupts events < 2 ^ 32
    → OnSome (IsAfter (n + interrupts events)) (run events s)
unfolding run
run-IsAfter_from [] n s a h = IsAfter-same n (n + 0) s (omega arith) a
run-IsAfter_from (e ∷ events) n s a h = elim (Option-cases (step e s)) [
  | inl stuck ↦ rw stuck tt
  | inr (t, stepped) ↦
      let first =
        subst (OnSome (IsAfter (n + is_interrupt e))) stepped
          (step-IsAfter e n s a (omega arith)) in
      rw stepped (
        OnSome-map (run events t)
          (λ u after.
            IsAfter-same (n + is_interrupt e + interrupts events)
              (n + (is_interrupt e + interrupts events)) u (omega arith) after)
          (run-IsAfter_from events (n + is_interrupt e) t first (omega arith)))
]

-- From loading on, in every sequence of fewer than 2^32 interrupts and of runs of the tasklet and the
-- work: counter_th is the number of interrupts; the tasklet ran at most that often, and so did the
-- work; and either of them, when it is not queued, has last seen the counter with every interrupt.
pub run-IsAfter :
    (events : List Event) (granted : Bool) (irq : ℕ) (l : Ledger)
    → interrupts events < 2 ^ 32
    → OnSome (IsAfter (interrupts events)) (run events (my_init granted irq l).2)
unfolding my_init
run-IsAfter events granted irq l h =
    let start = (my_init granted irq l).2 in
    OnSome-map (run events start)
      (λ u after. IsAfter-same (0 + interrupts events) (interrupts events) u (omega arith) after)
      (run-IsAfter_from events 0 start (refl, omega arith, omega arith, λ e. refl, λ e. refl)
        (omega arith))

-- How unloading ends, by whether the line was granted.
abbrev pub Unloads : Bool → Ledger → State → Option (Ledger × State) → Type 0
Unloads true l s r =
    (t : State) × (r ≡ some (l, t))
    × (t.work_queued ≡ false)
    × (t.tasklet_queued ≡ s.tasklet_queued)
Unloads false l s r = r ≡ none

drained : State → State
drained s = if s.work_queued then w_func s else s

drained-work_queued : (s : State) → (drained s).work_queued ≡ false
unfolding drained w_func
drained-work_queued s = elim (Bool-cases s.work_queued) [
  | inl on ↦ rw on refl
  | inr off ↦ rw off refl
]

drained-tasklet_queued : (s : State) → (drained s).tasklet_queued ≡ s.tasklet_queued
unfolding drained w_func
drained-tasklet_queued s = elim (Bool-cases s.work_queued) [
  | inl on ↦ rw on refl
  | inr off ↦ rw off refl
]

-- The line is not held before. Loading returns 0 even where the line is not granted, and unloading then gives back a line that is
-- not held. Where it is granted, unloading in any state gives back what loading took and leaves no
-- work queued, but a tasklet that is queued stays queued.
pub my_exit_lem :
    (granted : Bool) (irq : ℕ) (l : Ledger) (s : State)
    → l (irq_line irq) ≡ 0
    → ((my_init granted irq l).0 ≡ pos 0)
      × Unloads granted l s (my_exit irq ((my_init granted irq l).1, s))
unfolding my_init my_exit drained
my_exit_lem true irq l s h = (
  refl,
  (
    drained s,
    rw (release-acquire (irq_line irq) l) refl,
    drained-work_queued s,
    drained-tasklet_queued s,
  ),
)
my_exit_lem false irq l s h = (refl, rw (release_not_held (irq_line irq) l h) refl)
