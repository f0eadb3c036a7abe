-- ===== src/Irq/Lines.antt =====
-- irq/myinterrupt.c: one handler on every line that the kernel grants.
pub mod Laws
use kernel_examples.Prelude.{
  ℕ, zero, suc, ◌+◌, Bool, Option, none, some, List, [], ◌∷◌, if◌then◌else◌, ◌>>=◌,
}
use kernel_examples.Prelude.Int.{ℤ, pos, negsuc}
use kernel_examples.Kernel.{Ledger, acquire, release, irq_line}

-- Whether request_irq succeeds, for each line.
module _ (request_irq : ℕ → Bool) where
  -- The loop of my_init on `count` lines from `irq` on: the places of my_dev_id, and what is held.
  pub init_from : ℕ → ℕ → Ledger → List ℤ × Ledger
  init_from zero irq l = ([], l)
  init_from (suc count) irq l =
      let held = if request_irq irq then acquire (irq_line irq) l else l in
      let (my_dev_id, all) = init_from count (irq + 1) held in
      ((if request_irq irq then pos irq else negsuc 0) ∷ my_dev_id, all)

  pub my_init : ℕ → Ledger → List ℤ × Ledger
  my_init nr_irqs l = init_from nr_irqs 0 l

-- The loop of my_exit; the place of a line is negative if the line was not granted.
pub exit_from : List ℤ → ℕ → Ledger → Option Ledger
exit_from [] irq l = some l
exit_from (pos id ∷ my_dev_id) irq l = release (irq_line irq) l >>= exit_from my_dev_id (irq + 1)
exit_from (negsuc n ∷ my_dev_id) irq l = exit_from my_dev_id (irq + 1) l

pub my_exit : List ℤ → Ledger → Option Ledger
my_exit my_dev_id l = exit_from my_dev_id 0 l
