-- ===== src/Sync/Tests.antt =====
-- synchronization: the modules loaded in turn, and two threads up to the sleep of the first.
use kernel_examples.Prelude.{
  ℕ, zero, suc, ◌+◌, ◌%◌, ◌^◌, ◌<◌, ◌≤◌, arith, Bool, Option, if◌then◌else◌, ◌≡◌, ◌⊎◌, refl, true,
  false, none, some, List, [], ◌∷◌,
}
use kernel_examples.Sync.Semaphore.{
  Semaphores, Event, open_mod1, load_mod2, unload_mod1, unload_mod2,
}
use kernel_examples.Sync.Semaphore
use kernel_examples.Sync.Spin.{
  System, move, started, Step, Steps, stop, next, lock, increment, sleep, counting, testing,
  sleeping,
}
use kernel_examples.Sync.Spin.Deadlock.{steps_taken, IsDead, Steps-deadlock}

-- Semaphores that are their counts.
abbrev down : Bool → ℕ → Option (Bool × ℕ)
down pending zero = if pending then some (true, 0) else none
down pending (suc n) = some (false, n)

abbrev try_down : ℕ → Bool × ℕ
try_down zero = (true, 0)
try_down (suc n) = (false, n)

try_down_free : (n : ℕ) → 0 < n → ((try_down n).0 ≡ false) × (suc (try_down n).1 ≡ n)
try_down_free zero h = absurd (omega arith)
try_down_free (suc n) h = (refl, refl)

try_down_taken : (n : ℕ) → n ≡ 0 → try_down n ≡ (true, n)
try_down_taken n e = rw e refl

down_free :
    (pending : Bool) (n : ℕ) → 0 < n → (m : ℕ) × (down pending n ≡ some (false, m)) × (suc m ≡ n)
down_free pending zero h = absurd (omega arith)
down_free pending (suc n) h = (n, refl, refl)

down_waits : (n : ℕ) → n ≡ 0 → down false n ≡ none
down_waits n e = rw e refl

down_interrupted : (n : ℕ) → n ≡ 0 → down true n ≡ some (true, n)
down_interrupted n e = rw e refl

abbrev counts : Semaphores
counts = record {
  Sem = ℕ;
  count = λ n. n;
  sema_init = λ n. n;
  down_trylock = try_down;
  down_interruptible = down;
  up = λ n. (n + 1) % 2 ^ 32;
  init_count = λ n h. refl;
  trylock_free = try_down_free;
  trylock_taken = try_down_taken;
  down_free = down_free;
  down_waits = down_waits;
  down_interrupted = down_interrupted;
  up_count = λ n h. omega arith;
}

abbrev loaded : Semaphore.System ℕ
loaded = record { my_sem = 0; mod1 = true; mod2 = false; device = true }

abbrev events : List Event
events = open_mod1 ∷ load_mod2 false ∷ open_mod1 ∷ unload_mod2 ∷ unload_mod1 ∷ []

abbrev locked : System
locked = move 1 counting (record started { wrong_lock = some 1 })

abbrev counted : System
counted = move 1 testing (record locked { count = 1 })

asleep : Steps started (move 1 sleeping counted)
asleep =
    next _ counted _
      (next _ locked _ (next _ started _ (stop started) (lock 1 started refl refl))
        (increment 1 locked refl))
      (sleep 1 counted refl refl)

Steps-deadlock_example :
    (steps_taken asleep ≤ 3)
    × (((cpu : ℕ) × IsDead cpu (move 1 sleeping counted))
        ⊎ ((t : System) × Step (move 1 sleeping counted) t))
Steps-deadlock_example = Steps-deadlock (move 1 sleeping counted) asleep
