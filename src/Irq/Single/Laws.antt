-- ===== src/Irq/Single/Laws.antt =====
-- irq/irq_tasklet.c is irq_delayed.c without the work, and the one call of simple_tasklet.c.
use kernel_examples.Prelude.{
  ℕ, ◌+◌, ◌≡◌, refl, Bool, false, Bool-cases, inl, inr, Option, none, some, List, [], ◌∷◌, OnSome,
}
use kernel_examples.Kernel.{Ledger}
use kernel_examples.Irq.Tasklet
use kernel_examples.Irq.Single.{
  Counters, handle, run_tasklet, Event, interrupt, tasklet, step, run, my_init, Called,
  tasklet_func, drv_init, drv_exit,
}

-- What irq_tasklet.c knows of a state and of the events of irq_delayed.c.
abbrev pub forget : Tasklet.State → Counters
forget s = record {
  counter_th = s.counter_th;
  counter_bh = s.counter_bh;
  my_data = s.my_data;
  tasklet_queued = s.tasklet_queued;
  seen = s.seen_by_tasklet;
}

abbrev pub without_work : List Tasklet.Event → List Event
without_work [] = []
without_work (Tasklet.interrupt jiffies ∷ events) = interrupt jiffies ∷ without_work events
without_work (Tasklet.tasklet ∷ events) = tasklet ∷ without_work events
without_work (Tasklet.work ∷ events) = without_work events

-- Events of irq_tasklet.c, each a possible one of irq_delayed.c.
abbrev pub as_delayed : List Event → List Tasklet.Event
as_delayed [] = []
as_delayed (interrupt jiffies ∷ events) = Tasklet.interrupt jiffies ∷ as_delayed events
as_delayed (tasklet ∷ events) = Tasklet.tasklet ∷ as_delayed events

forgets :
    (events : List Tasklet.Event) (s : Tasklet.State)
    → OnSome (λ t. run (without_work events) (forget s) ≡ some (forget t)) (Tasklet.run events s)
unfolding run step handle run_tasklet Tasklet.run Tasklet.step Tasklet.my_interrupt Tasklet.t_func
    Tasklet.w_func
forgets [] s = refl
forgets (Tasklet.interrupt jiffies ∷ events) s = forgets events (Tasklet.my_interrupt jiffies s)
forgets (Tasklet.tasklet ∷ events) s = elim (Bool-cases s.tasklet_queued) [
  | inl on ↦ rw on (forgets events (Tasklet.t_func s))
  | inr off ↦ rw off tt
]
forgets (Tasklet.work ∷ events) s = elim (Bool-cases s.work_queued) [
  | inl on ↦ rw on (forgets events (Tasklet.w_func s))
  | inr off ↦ rw off tt
]

abbrev pub forget_result : Option Tasklet.State → Option Counters
forget_result none = none
forget_result (some s) = some (forget s)

lifts :
    (events : List Event) (s : Tasklet.State)
    → run events (forget s) ≡ forget_result (Tasklet.run (as_delayed events) s)
unfolding run step handle run_tasklet Tasklet.run Tasklet.step Tasklet.my_interrupt Tasklet.t_func
    Tasklet.w_func
lifts [] s = refl
lifts (interrupt jiffies ∷ events) s = lifts events (Tasklet.my_interrupt jiffies s)
lifts (tasklet ∷ events) s = elim (Bool-cases s.tasklet_queued) [
  | inl on ↦ rw on (lifts events (Tasklet.t_func s))
  | inr off ↦ rw off refl
]

-- irq_delayed.c refines irq_tasklet.c: without what only its work knows, loading leaves the same
-- counters, every sequence of events that is possible is a possible one of irq_tasklet.c with the work
-- left out, and ends in the same counters; and every sequence of irq_tasklet.c has such an end, or
-- none, in irq_delayed.c.
pub forget-run :
    (granted : Bool) (irq : ℕ) (l : Ledger) (events : List Tasklet.Event) (events' : List Event)
    → let start = (Tasklet.my_init granted irq l).2 in
      let start' = (my_init granted irq l).2 in
      (forget start ≡ start')
      × OnSome (λ t. run (without_work events) start' ≡ some (forget t)) (Tasklet.run events start)
      × (run events' start' ≡ forget_result (Tasklet.run (as_delayed events') start))
unfolding my_init Tasklet.my_init
forget-run granted irq l events events' =
    let start = (Tasklet.my_init granted irq l).2 in
    (refl, forgets events start, lifts events' start)

-- The tasklet of simple_tasklet.c has run once when the module is gone, whether it had its turn before
-- unloading or not.
drv_exit-drv_init :
    (c : Called)
    → c.queued ≡ false
    → ((drv_exit (drv_init c).1).calls ≡ c.calls + 1)
      × ((drv_exit (tasklet_func (drv_init c).1)).calls ≡ c.calls + 1)
      × ((drv_exit (drv_init c).1).queued ≡ false)
unfolding drv_init drv_exit tasklet_func
drv_exit-drv_init c h = (refl, refl, refl)
