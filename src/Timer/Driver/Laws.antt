-- ===== src/Timer/Driver/Laws.antt =====
-- timer/timer_drv.c: which sequences of writes are safe, what the timer prints, and what unloading leaves.
use kernel_examples.Prelude.{
  ℕ, zero, suc, ◌+◌, ◌*◌, ◌^◌, ◌≤◌, ◌<◌, ◌≡◌, refl, sym, ap, ap₂, subst, ◌∙◌, arith, Bool, true,
  false, Option, none, some, List, [], ◌∷◌,
}
use kernel_examples.Prelude.Int.{ℤ, pos}
use kernel_examples.Kernel.{Ledger, chrdev, u32, u64, signed32, signed32_small, release-acquire}
use kernel_examples.Timer.Driver.{
  Driver, idle, my_timer_function, my_write, Event, write, expire, step, run, my_init, my_exit,
}

-- Between two writes the timer has its turn.
abbrev pub is_separated : Bool → List Event → Bool
is_separated pending [] = true
is_separated true (write jiffies lbuf ∷ events) = false
is_separated false (write jiffies lbuf ∷ events) = is_separated true events
is_separated pending (expire ∷ events) = is_separated false events

abbrev pub is_write : Event → ℕ
is_write (write jiffies lbuf) = 1
is_write expire = 0

abbrev pub writes : List Event → ℕ
writes [] = 0
writes (e ∷ events) = is_write e + writes events

-- 100, 110 and so on, the last first.
abbrev pub datas : ℕ → List ℤ
datas zero = []
datas (suc n) = pos (100 + 10 * n) ∷ datas n

-- After so many writes: what each of them left was printed, or, of the last, is still to be.
abbrev pub IsServed : ℕ → Bool → Driver → Type 0
IsServed n false d = (d.pending ≡ false) × (d.len ≡ 100 + 10 * n) × (d.printed ≡ datas n)
IsServed n true d =
    (d.pending ≡ true)
    × (d.len ≡ 100 + 10 * n)
    × (d.timer_data + 10 ≡ d.len)
    × (datas n ≡ pos d.timer_data ∷ d.printed)

abbrev pub pending_after : Bool → List Event → Bool
pending_after pending [] = pending
pending_after pending (write jiffies lbuf ∷ events) = pending_after true events
pending_after pending (expire ∷ events) = pending_after false events

-- What a run from here on comes to.
abbrev pub RunEnds : Bool → ℕ → Bool → Option Driver → Type 0
RunEnds true n pending r = (d : Driver) × (r ≡ some d) × IsServed n pending d
RunEnds false n pending r = r ≡ none

RunEnds-same :
    (b : Bool) (n m : ℕ) (pending : Bool) (r : Option Driver)
    → n ≡ m
    → RunEnds b n pending r
    → RunEnds b m pending r
RunEnds-same b n m pending r e h = subst (λ k. RunEnds b k pending r) e h

module _ (hz : ℕ) where
  abbrev written : ℕ → Driver → Driver
  written jiffies d = record d {
    expires = u64 (jiffies + hz);
    timer_data = d.len;
    pending = true;
    len = u32 (d.len + 10);
  }

  abbrev expired : Driver → Driver
  expired d = record d { pending = false; printed = signed32 (u32 d.timer_data) ∷ d.printed }

  step_pending :
      (jiffies lbuf : ℕ) (d : Driver) → d.pending ≡ true → step hz (write jiffies lbuf) d ≡ none
  unfolding step my_write
  step_pending jiffies lbuf d e = rw e refl

  step_write :
      (jiffies lbuf : ℕ) (d : Driver)
      → d.pending ≡ false
      → step hz (write jiffies lbuf) d ≡ some (written jiffies d)
  unfolding step my_write
  step_write jiffies lbuf d e = rw e refl

  step_expire : (d : Driver) → d.pending ≡ true → step hz expire d ≡ some (expired d)
  unfolding step my_timer_function
  step_expire d e = rw e refl

  step_idle : (d : Driver) → d.pending ≡ false → step hz expire d ≡ some d
  unfolding step
  step_idle d e = rw e refl

  IsServed-same :
      (n m : ℕ) (pending : Bool) (d : Driver) → n ≡ m → IsServed n pending d → IsServed m pending d
  IsServed-same n m pending d e h = subst (λ k. IsServed k pending d) e h

  written-IsServed :
      (n jiffies : ℕ) (d : Driver)
      → IsServed n false d
      → n < 2 ^ 24
      → IsServed (suc n) true (written jiffies d)
  written-IsServed n jiffies d (on, l, p) k =
      (refl, omega arith, omega arith, ap₂ (λ a b. pos a ∷ b) (sym l) (sym p))

  expired-IsServed :
      (n : ℕ) (d : Driver) → IsServed n true d → n ≤ 2 ^ 24 → IsServed n false (expired d)
  expired-IsServed n d (on, l, t, p) k =
      let whole : u32 d.timer_data ≡ d.timer_data = omega arith in
      let shown : signed32 (u32 d.timer_data) ≡ pos d.timer_data =
        ap signed32 whole ∙ signed32_small d.timer_data (omega arith) in
      (refl, l, ap (λ z. z ∷ d.printed) shown ∙ sym p)

  run_lem :
      (events : List Event) (n : ℕ) (pending : Bool) (d : Driver)
      → IsServed n pending d
      → n + writes events < 2 ^ 24
      → RunEnds
          (is_separated pending events)
          (n + writes events)
          (pending_after pending events)
          (run hz events d)
  unfolding run
  run_lem [] n false d h k = (d, refl, IsServed-same n (n + 0) false d (omega arith) h)
  run_lem [] n true d h k = (d, refl, IsServed-same n (n + 0) true d (omega arith) h)
  run_lem (write jiffies lbuf ∷ events) n true d h k = rw (step_pending jiffies lbuf d h.0) refl
  run_lem (write jiffies lbuf ∷ events) n false d h k = rw (step_write jiffies lbuf d h.0) (
      RunEnds-same (is_separated true events) (suc n + writes events) (n + (1 + writes events))
        (pending_after true events) (run hz events (written jiffies d)) (omega arith)
        (run_lem events (suc n) true (written jiffies d)
          (written-IsServed n jiffies d h (omega arith)) (omega arith)))
  run_lem (expire ∷ events) n true d h k = rw (step_expire d h.0) (
      RunEnds-same (is_separated false events) (n + writes events) (n + (0 + writes events))
        (pending_after false events) (run hz events (expired d)) (omega arith)
        (run_lem events n false (expired d) (expired-IsServed n d h (omega arith)) (omega arith)))
  run_lem (expire ∷ events) n false d h k = rw (step_idle d h.0) (
      RunEnds-same (is_separated false events) (n + writes events) (n + (0 + writes events))
        (pending_after false events) (run hz events d) (omega arith)
        (run_lem events n false d h (omega arith)))

-- Unloading gives back the device and leaves a timer that is pending as it is.
my_exit_pending : (l : Ledger) (d : Driver) → my_exit ((my_init true l).1, d) ≡ some (l, d)
unfolding my_init my_exit
my_exit_pending l d = rw (release-acquire chrdev l) refl

-- From loading on, with fewer than 2^24 writes: the writes are safe exactly where the timer has its
-- turn between any two of them, since each of them calls init_timer. It then prints what each of them
-- left, 100, 110 and so on, in this order, a last one that is pending apart. Unloading gives back the
-- device and leaves a timer that is pending as it is.
pub run-RunEnds :
    (hz : ℕ) (events : List Event) (l : Ledger) (d : Driver)
    → writes events < 2 ^ 24
    → RunEnds
        (is_separated false events)
        (writes events)
        (pending_after false events)
        (run hz events idle)
      × (my_exit ((my_init true l).1, d) ≡ some (l, d))
run-RunEnds hz events l d k = (
  RunEnds-same (is_separated false events) (0 + writes events) (writes events)
      (pending_after false events) (run hz events idle) (omega arith)
      (run_lem hz events 0 false idle (refl, omega arith, refl) (omega arith)),
  my_exit_pending l d,
)
