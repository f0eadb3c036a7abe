-- ===== src/Timer/Driver.antt =====
-- timer/timer_drv.c: my_write, my_timer_function, my_init and my_exit. `none` is init_timer of a timer
-- that is pending, which breaks the kernel's list of timers.
pub mod Laws
use kernel_examples.Prelude.{
  ℕ, ◌+◌, Bool, true, false, Option, none, some, List, [], ◌∷◌, if◌then◌else◌, ◌>>=◌,
}
use kernel_examples.Prelude.Int.{ℤ, pos}
use kernel_examples.Kernel.{Ledger, acquire, release, chrdev, u32, u64, signed32}

-- my_timer and whether it is pending, `len` of my_write, a 32-bit word, and the data that was printed,
-- the last first.
pub record Driver : Type 0 where
  pub pending : Bool
  pub expires : ℕ
  pub timer_data : ℕ
  pub len : ℕ
  pub printed : List ℤ

abbrev pub idle : Driver
idle = record { pending = false; expires = 0; timer_data = 0; len = 100; printed = [] }

pub my_timer_function : Driver → Driver
my_timer_function d = record d { printed = signed32 (u32 d.timer_data) ∷ d.printed }

-- What is returned is the length that was asked for.
pub my_write : ℕ → ℕ → ℕ → Driver → Option (ℕ × Driver)
my_write hz jiffies lbuf d =
    if d.pending
    then none
    else some (
      lbuf,
      record d {
        expires = u64 (jiffies + hz);
        timer_data = d.len;
        pending = true;
        len = u32 (d.len + 10);
      },
    )

-- A write at some time, and the kernel's turn with the timer, if it is pending.
pub data Event : Type 0 where
  write : ℕ → ℕ → Event
  expire : Event

pub step : ℕ → Event → Driver → Option Driver
unfolding my_write my_timer_function
step hz (write jiffies lbuf) d = do (ret, e) ← my_write hz jiffies lbuf d; some e
step hz expire d = some (if d.pending then my_timer_function (record d { pending = false }) else d)

pub run : ℕ → List Event → Driver → Option Driver
run hz [] d = some d
run hz (e ∷ events) d = step hz e d >>= run hz events

-- The answer of register_chrdev is the major number, which is not looked at.
pub my_init : Bool → Ledger → ℤ × Ledger
my_init register_chrdev l = (pos 0, if register_chrdev then acquire chrdev l else l)

-- The timer stays as it is.
pub my_exit : Ledger × Driver → Option (Ledger × Driver)
my_exit (l, d) = do freed ← release chrdev l; some (freed, d)
