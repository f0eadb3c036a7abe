-- ===== src/Sync/Spin/Laws.antt =====
-- synchronization/spindead.c: the first thread keeps the lock for ever, and no thread ends.
use kernel_examples.Prelude.{
  ℕ, ◌+◌, ◌≡◌, ◌≢◌, ◌⊎◌, inl, inr, refl, sym, ap, subst, ◌∙◌, arith, false, Bool-cases, none, some,
  ◌==◌, true-false, ==→eq, eq→==, ne→==,
}
use kernel_examples.Sync.Spin.{
  Phase, locking, counting, testing, sleeping, unlocking, System, move, started, Step, lock,
  increment, sleep, pass, unlock, Steps, stop, next,
}

-- The count by the time that the thread with the lock is at a phase.
abbrev pub Holder : Phase → ℕ → Type 0
Holder counting count = count ≡ 0
Holder testing count = count ≡ 1
Holder sleeping count = count ≡ 1
Holder _ count = ⊥

-- The thread has the lock, and every other one is in front of it.
abbrev pub IsHeld : ℕ → Phase → System → Type 0
IsHeld cpu p s =
    (s.wrong_lock ≡ some cpu)
    × (s.phase cpu ≡ p)
    × Holder p s.count
    × ((c : ℕ) → c ≢ cpu → s.phase c ≡ locking)

abbrev pub IsFree : System → Type 0
IsFree s = (s.wrong_lock ≡ none) × (s.count ≡ 0) × ((c : ℕ) → s.phase c ≡ locking)

abbrev pub Stuck : System → Type 0
Stuck s = IsFree s ⊎ ((cpu : ℕ) × (p : Phase) × IsHeld cpu p s)

pub none-some : {h : ℕ} → none ≢ some h
none-some e = cc

pub counting_locking : counting ≢ locking
counting_locking e = cc

pub testing_locking : testing ≢ locking
testing_locking e = cc

sleeping_locking : sleeping ≢ locking
sleeping_locking e = cc

pub unlocking_locking : unlocking ≢ locking
unlocking_locking e = cc

move_self : (cpu : ℕ) (to : Phase) (s : System) → (move cpu to s).phase cpu ≡ to
move_self cpu to s = rw (eq→== cpu cpu refl) refl

move-other :
    (cpu : ℕ) (to : Phase) (s : System)
    → ((c : ℕ) → c ≢ cpu → s.phase c ≡ locking)
    → (c : ℕ) → c ≢ cpu
    → (move cpu to s).phase c ≡ locking
move-other cpu to s others c h = rw (ne→== c cpu h) (others c h)

not_same : (a b : ℕ) → (a == b) ≡ false → a ≢ b
not_same a b h e = true-false (sym (eq→== a b e) ∙ h)

-- A thread that is past the lock holds it.
pub past_lock :
    (cpu : ℕ) (p : Phase) (s : System) → Stuck s → s.phase cpu ≡ p → p ≢ locking → IsHeld cpu p s
past_lock cpu p s (inl (free, zero_count, all)) at past = absurd (past (sym at ∙ all cpu))
past_lock cpu p s (inr (h, q, (held, at_h, holder, others))) at past =
    elim (Bool-cases (cpu == h)) [
      | inl same ↦
          let e = ==→eq cpu h same in
          let q_p : q ≡ p = sym at_h ∙ ap s.phase (sym e) ∙ at in
          (
            held ∙ ap some (sym e),
            at,
            subst (λ r. Holder r s.count) q_p holder,
            λ c ne. others c (λ c_h. ne (c_h ∙ sym e)),
          )
      | inr different ↦ absurd (past (sym at ∙ others cpu (λ e. not_same cpu h different e)))
    ]

-- The thread that had the lock has it still, one phase further.
pub move-IsHeld :
    (cpu : ℕ) (to : Phase) (s : System)
    → s.wrong_lock ≡ some cpu
    → Holder to s.count
    → ((c : ℕ) → c ≢ cpu → s.phase c ≡ locking)
    → IsHeld cpu to (move cpu to s)
move-IsHeld cpu to s held holder others =
    (held, move_self cpu to s, holder, move-other cpu to s others)

moved :
    (cpu : ℕ) (to : Phase) (s : System)
    → s.wrong_lock ≡ some cpu
    → Holder to s.count
    → ((c : ℕ) → c ≢ cpu → s.phase c ≡ locking)
    → Stuck (move cpu to s)
moved cpu to s held holder others = inr (cpu, to, move-IsHeld cpu to s held holder others)

Step-Stuck : {s t : System} → Step s t → Stuck s → Stuck t
Step-Stuck (lock cpu s at unheld) (inl (free, zero_count, all)) =
    moved cpu counting (record s { wrong_lock = some cpu }) refl zero_count (λ c ne. all c)
Step-Stuck (lock cpu s at unheld) (inr (h, q, (held, at_h, holder, others))) =
    absurd (none-some (sym unheld ∙ held))
Step-Stuck (increment cpu s at) k =
    let (held, self, holder, others) = past_lock cpu counting s k at counting_locking in
    moved cpu testing (record s { count = s.count + 1 }) held (omega arith) others
Step-Stuck (sleep cpu s at one) k =
    let (held, self, holder, others) = past_lock cpu testing s k at testing_locking in
    moved cpu sleeping s held holder others
Step-Stuck (pass cpu s at other) k =
    let (held, self, holder, others) = past_lock cpu testing s k at testing_locking in
    absurd (other holder)
Step-Stuck (unlock cpu s at) k =
    let (held, self, holder, others) = past_lock cpu unlocking s k at unlocking_locking in
    absurd holder

Steps-Stuck : {s t : System} → Steps s t → Stuck s → Stuck t
Steps-Stuck (stop s) k = k
Steps-Stuck (next s t u before last) k = Step-Stuck last (Steps-Stuck before k)

pub some_inj : (a b : ℕ) → some a ≡ some b → a ≡ b
some_inj a b e = ap (λ o. elim o [ none ↦ a | some x ↦ x ]) e

-- While a thread sleeps, any thread that is past the lock is that one.
only_sleeper :
    (cpu c : ℕ) (p : Phase) (s : System)
    → Stuck s
    → s.phase cpu ≡ sleeping
    → s.phase c ≡ p
    → p ≢ locking
    → p ≡ sleeping
only_sleeper cpu c p s k asleep at past =
    let (held, self, holder, others) = past_lock cpu sleeping s k asleep sleeping_locking in
    let (held', self', holder', others') = past_lock c p s k at past in
    sym at ∙ ap s.phase (some_inj c cpu (sym held' ∙ held)) ∙ asleep

counting_sleeping : counting ≢ sleeping
counting_sleeping e = cc

testing_sleeping : testing ≢ sleeping
testing_sleeping e = cc

unlocking_sleeping : unlocking ≢ sleeping
unlocking_sleeping e = cc

Stuck-asleep : {s t : System} (cpu : ℕ) → Stuck s → s.phase cpu ≡ sleeping → Step s t → ⊥
Stuck-asleep cpu k asleep (lock c s at unheld) =
    let (held, self, holder, others) = past_lock cpu sleeping s k asleep sleeping_locking in
    none-some (sym unheld ∙ held)
Stuck-asleep cpu k asleep (increment c s at) =
    counting_sleeping (only_sleeper cpu c counting s k asleep at counting_locking)
Stuck-asleep cpu k asleep (sleep c s at one) =
    testing_sleeping (only_sleeper cpu c testing s k asleep at testing_locking)
Stuck-asleep cpu k asleep (pass c s at other) =
    testing_sleeping (only_sleeper cpu c testing s k asleep at testing_locking)
Stuck-asleep cpu k asleep (unlock c s at) =
    unlocking_sleeping (only_sleeper cpu c unlocking s k asleep at unlocking_locking)

-- However the threads' steps follow each other, no thread comes past the lock's first holder: the
-- lock, once taken, is held by one thread, which has gone no further than the sleep, and all the
-- others are in front of the lock. Once it sleeps, no thread can take another step.
pub Steps-IsHeld :
    (s : System)
    → Steps started s
    → (IsFree s ⊎ ((cpu : ℕ) × (p : Phase) × IsHeld cpu p s))
      × ((cpu : ℕ) (t : System) → s.phase cpu ≡ sleeping → Step s t → ⊥)
Steps-IsHeld s steps =
    let stuck = Steps-Stuck steps (inl (refl, refl, λ c. refl)) in
    (stuck, λ cpu t asleep step. Stuck-asleep cpu stuck asleep step)
