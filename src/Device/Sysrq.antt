-- ===== src/Device/Sysrq.antt =====
-- sysrq/sysrq_task.c: the task list of my_sysrq_task_list, and the key.
use kernel_examples.Prelude.{
  zero, suc, ℕ, Bool, true, false, Option, some, List, [], ◌∷◌, ◌++◌, ◌≡◌, refl, ◌==◌,
  if◌then◌else◌,
}
use kernel_examples.Prelude.Int.{ℤ, pos, negsuc}
use kernel_examples.Kernel.{Ledger, acquire, release, sysrq_key, release-acquire}
use kernel_examples.Proc.Text.{print_int}

pub record Task : Type 0 where
  pub comm : List ℕ
  pub pid : ℤ
  pub state : ℕ

abbrev pub task_running : ℕ
task_running = 0

-- "%s(%d) is %s Runnable\n"
pub task_line : Task → List ℕ
task_line p =
    p.comm
    ++ ((b'(' ∷ print_int p.pid)
        ++ ((b')'
              ∷ b' '
              ∷ b'i'
              ∷ b's'
              ∷ b' '
              ∷ (if p.state == task_running then [] else b'N' ∷ b'o' ∷ b't' ∷ []))
            ++ (b' ' ∷ b'R' ∷ b'u' ∷ b'n' ∷ b'n' ∷ b'a' ∷ b'b' ∷ b'l' ∷ b'e' ∷ b'\n' ∷ [])))

-- The lines between the first and the last, one for each process.
pub my_sysrq_task_list : List Task → List (List ℕ)
my_sysrq_task_list [] = []
my_sysrq_task_list (p ∷ tasks) = task_line p ∷ my_sysrq_task_list tasks

-- What is returned, whether the message says that the function is registered, and what is held; by
-- what register_sysrq_key answers.
pub my_init : ℤ → Ledger → ℤ × Bool × Ledger
my_init (pos zero) l = (pos 0, false, acquire sysrq_key l)
my_init (pos (suc n)) l = (pos (suc n), true, l)
my_init (negsuc n) l = (negsuc n, true, l)

pub my_exit : Ledger → Option Ledger
my_exit l = release sysrq_key l

-- The message says the contrary of what happened.
my_init_message :
    (l : Ledger) (n : ℕ)
    → ((my_init (pos 0) l).1 ≡ false)
      × (my_exit (my_init (pos 0) l).2 ≡ some l)
      × (my_init (negsuc n) l ≡ (negsuc n, true, l))
unfolding my_init my_exit
my_init_message l n = (refl, release-acquire sysrq_key l, refl)
