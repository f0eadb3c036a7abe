-- ===== src/Sync/Spin.antt =====
-- synchronization/spindead.c: a thread for each cpu, and the lock that they take. A step is one
-- statement of spintest_fn; nothing wakes a thread that sleeps in it.
pub mod Laws
pub mod Deadlock
pub mod Threads
use kernel_examples.Prelude.{
  ℕ, ◌+◌, ◌≡◌, ◌≢◌, Option, none, some, List, [], ◌∷◌, ◌++◌, ◌==◌, if◌then◌else◌,
}

-- Where a thread stands: before spin_lock, before count++, before the test of count, in schedule,
-- before spin_unlock, and at its end.
pub data Phase : Type 0 where
  locking counting testing sleeping unlocking finished : Phase

-- The threads by their cpu, the one that holds wrong_lock, and count.
pub record System : Type 0 where
  pub phase : ℕ → Phase
  pub wrong_lock : Option ℕ
  pub count : ℕ

abbrev pub move : ℕ → Phase → System → System
move cpu to s = record s { phase = λ c. if c == cpu then to else s.phase c }

-- What create_kernel_threads starts.
abbrev pub started : System
started = record { phase = λ c. locking; wrong_lock = none; count = 0 }

pub data Step : System → System → Type 0 where
  lock :
      (cpu : ℕ) (s : System)
      → s.phase cpu ≡ locking
      → s.wrong_lock ≡ none
      → Step s (move cpu counting (record s { wrong_lock = some cpu }))
  increment :
      (cpu : ℕ) (s : System)
      → s.phase cpu ≡ counting
      → Step s (move cpu testing (record s { count = s.count + 1 }))
  sleep :
      (cpu : ℕ) (s : System) → s.phase cpu ≡ testing → s.count ≡ 1 → Step s (move cpu sleeping s)
  pass :
      (cpu : ℕ) (s : System) → s.phase cpu ≡ testing → s.count ≢ 1 → Step s (move cpu unlocking s)
  unlock :
      (cpu : ℕ) (s : System)
      → s.phase cpu ≡ unlocking
      → Step s (move cpu finished (record s { wrong_lock = none }))

pub data Steps : System → System → Type 0 where
  stop : (s : System) → Steps s s
  next : (s t u : System) → Steps s t → Step t u → Steps s u
