-- ===== src/Irq/Tests.antt =====
-- irq: two interrupts before the tasklet runs.
use kernel_examples.Prelude.{◌≡◌, refl, arith, true, some, List, [], ◌∷◌, OnSome}
use kernel_examples.Prelude.Int.{pos}
use kernel_examples.Kernel.{nothing}
use kernel_examples.Irq.Tasklet.{State, Event, interrupt, tasklet, work, run}
use kernel_examples.Irq.Single
use kernel_examples.Irq.Single.Laws.{forget, without_work, as_delayed, forget_result, forget-run}
use kernel_examples.Irq.Tasklet
use kernel_examples.Irq.Tasklet.Laws.{IsAfter, Unloads, run-IsAfter, my_exit_lem}

abbrev events : List Event
events = interrupt 100 ∷ interrupt 101 ∷ tasklet ∷ work ∷ []

run-IsAfter_example : OnSome (IsAfter 2) (run events (Tasklet.my_init true 7 nothing).2)
run-IsAfter_example = run-IsAfter events true 7 nothing (omega arith)

abbrev busy : State
busy = record {
  counter_th = 1;
  counter_bh = 0;
  counter_wq = 0;
  my_data = 100;
  tasklet_queued = true;
  work_queued = true;
  seen_by_tasklet = 0;
  seen_by_work = 0;
}

my_exit_lem_example :
    ((Tasklet.my_init true 7 nothing).0 ≡ pos 0)
    × Unloads true nothing busy (Tasklet.my_exit 7 ((Tasklet.my_init true 7 nothing).1, busy))
my_exit_lem_example = my_exit_lem true 7 nothing busy refl

-- A tasklet that runs where none is queued, the second time.
abbrev too_many : List Single.Event
too_many = Single.interrupt 100 ∷ Single.tasklet ∷ Single.tasklet ∷ []

forget-run_example :
    (forget (Tasklet.my_init true 7 nothing).2 ≡ (Single.my_init true 7 nothing).2)
    × OnSome
        (λ t. Single.run (without_work events) (Single.my_init true 7 nothing).2 ≡ some (forget t))
        (Tasklet.run events (Tasklet.my_init true 7 nothing).2)
    × (Single.run too_many (Single.my_init true 7 nothing).2
        ≡ forget_result (Tasklet.run (as_delayed too_many) (Tasklet.my_init true 7 nothing).2))
forget-run_example = forget-run true 7 nothing events too_many
