-- ===== src/Irq/Single.antt =====
-- irq/irq_tasklet.c, whose handler leaves its work to a tasklet alone, and irq/simple_tasklet.c, which
-- schedules one when it is loaded.
pub mod Laws
use kernel_examples.Prelude.{
  ℕ, ◌+◌, Bool, true, false, Option, none, some, List, [], ◌∷◌, if◌then◌else◌, ◌>>=◌,
}
use kernel_examples.Prelude.Int.{ℤ, pos}
use kernel_examples.Kernel.{Ledger, acquire, release, irq_line, u32}

-- The counters are 32-bit words.
pub record Counters : Type 0 where
  pub counter_th : ℕ
  pub counter_bh : ℕ
  pub my_data : ℕ  -- jiffies, at the last interrupt
  pub tasklet_queued : Bool
  pub seen : ℕ  -- counter_th, as t_func last printed it

pub handle : ℕ → Counters → Counters
handle jiffies s = record s {
  counter_th = u32 (s.counter_th + 1);
  my_data = jiffies;
  tasklet_queued = true;
}

pub run_tasklet : Counters → Counters
run_tasklet s = record s {
  counter_bh = u32 (s.counter_bh + 1);
  tasklet_queued = false;
  seen = s.counter_th;
}

pub data Event : Type 0 where
  interrupt : ℕ → Event
  tasklet : Event

pub step : Event → Counters → Option Counters
unfolding handle run_tasklet
step (interrupt jiffies) s = some (handle jiffies s)
step tasklet s = if s.tasklet_queued then some (run_tasklet s) else none

pub run : List Event → Counters → Option Counters
run [] s = some s
run (e ∷ events) s = step e s >>= run events

abbrev pub loaded : Counters
loaded = record { counter_th = 0; counter_bh = 0; my_data = 0; tasklet_queued = false; seen = 0 }

-- The answer of request_irq is not looked at.
pub my_init : Bool → ℕ → Ledger → ℤ × Ledger × Counters
my_init request_irq irq l = (pos 0, if request_irq then acquire (irq_line irq) l else l, loaded)

pub my_exit : ℕ → Ledger × Counters → Option (Ledger × Counters)
my_exit irq (l, s) = do freed ← release (irq_line irq) l; some (freed, s)

-- simple_tasklet.c: whether its tasklet is queued, and how often it ran.
pub record Called : Type 0 where
  pub queued : Bool
  pub calls : ℕ

-- tasklet_func, where it is queued.
pub tasklet_func : Called → Called
tasklet_func c = if c.queued then record { queued = false; calls = c.calls + 1 } else c

pub drv_init : Called → ℤ × Called
drv_init c = (pos 0, record c { queued = true })

-- tasklet_kill waits until what is queued has run.
pub drv_exit : Called → Called
drv_exit c = tasklet_func c
