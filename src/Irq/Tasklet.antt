-- ===== src/Irq/Tasklet.antt =====
-- irq/irq_delayed.c: the handler of an interrupt, and the tasklet and the work that it leaves for
-- later. irq_tasklet.c is the same without the work.
pub mod Laws
use kernel_examples.Prelude.{
  ℕ, ◌+◌, Bool, true, false, Option, none, some, List, [], ◌∷◌, if◌then◌else◌, ◌>>=◌,
}
use kernel_examples.Prelude.Int.{ℤ, pos}
use kernel_examples.Kernel.{Ledger, acquire, release, irq_line, u32}

-- The counters are 32-bit words. Whether the tasklet and the work are queued is the kernel's state:
-- queueing what is queued already does nothing.
pub record State : Type 0 where
  pub counter_th : ℕ
  pub counter_bh : ℕ
  pub counter_wq : ℕ
  pub my_data : ℕ  -- jiffies, at the last interrupt
  pub tasklet_queued : Bool
  pub work_queued : Bool
  pub seen_by_tasklet : ℕ  -- counter_th, as t_func last printed it
  pub seen_by_work : ℕ  -- counter_th, as w_func last printed it

unfoldable pub my_interrupt : ℕ → State → State
my_interrupt jiffies s = record s {
  counter_th = u32 (s.counter_th + 1);
  my_data = jiffies;
  tasklet_queued = true;
  work_queued = true;
}

unfoldable pub t_func : State → State
t_func s = record s {
  counter_bh = u32 (s.counter_bh + 1);
  tasklet_queued = false;
  seen_by_tasklet = s.counter_th;
}

unfoldable pub w_func : State → State
w_func s = record s {
  counter_wq = u32 (s.counter_wq + 1);
  work_queued = false;
  seen_by_work = s.counter_th;
}

-- What can happen: an interrupt at some time, and each of the two that is queued.
pub data Event : Type 0 where
  interrupt : ℕ → Event
  tasklet work : Event

unfoldable pub step : Event → State → Option State
unfolding my_interrupt t_func w_func
step (interrupt jiffies) s = some (my_interrupt jiffies s)
step tasklet s = if s.tasklet_queued then some (t_func s) else none
step work s = if s.work_queued then some (w_func s) else none

unfoldable pub run : List Event → State → Option State
run [] s = some s
run (e ∷ events) s = step e s >>= run events

-- my_init sets the counters; DECLARE_TASKLET and DECLARE_WORK leave nothing queued. It returns 0
-- whatever request_irq answers.
unfoldable pub my_init : Bool → ℕ → Ledger → ℤ × Ledger × State
my_init request_irq irq l = (
  pos 0,
  if request_irq then acquire (irq_line irq) l else l,
  record {
    counter_th = 0;
    counter_bh = 0;
    counter_wq = 0;
    my_data = 0;
    tasklet_queued = false;
    work_queued = false;
    seen_by_tasklet = 0;
    seen_by_work = 0;
  },
)

-- destroy_workqueue runs the work that is queued; the tasklet stays as it is.
unfoldable pub my_exit : ℕ → Ledger × State → Option (Ledger × State)
my_exit irq (l, s) = do
  freed ← release (irq_line irq) l
  some (freed, if s.work_queued then w_func s else s)
