-- ===== src/Proc/Tests.antt =====
-- filesystem: the number 42 through the files, and two writers of signals.
use kernel_examples.Prelude.{
  ℕ, ◌≡◌, refl, arith, Bool, true, false, Option, none, some, List, [], ◌∷◌, length, if◌then◌else◌,
  ◌==◌,
}
use kernel_examples.Prelude.Int.{ℤ, pos, negsuc}
use kernel_examples.Proc.Text.{print_int, print_line, scan_int, scan_number}
use kernel_examples.Proc.File
use kernel_examples.Proc.File.Laws.{my_proc_read-my_proc_write}
use kernel_examples.Proc.Signal
use kernel_examples.Proc.Entries
use kernel_examples.Proc.Entries.Laws.{Restores, exit-Restores}
use kernel_examples.Proc.Task
use kernel_examples.Proc.Task.Laws.{IsSum, unsigned_reply, dead_pid, nr_hashed-adds}
use kernel_examples.Kernel.{u32, nothing, acquire, kobject}

abbrev answer : ℤ
answer = pos 42

my_proc_read-my_proc_write_example :
    (r : File.Reply) × (File.my_proc_read answer 0 4096 0 ≡ some r)
    × (r.delivered ≡ print_line answer)
    × (File.my_proc_read answer 0 4096 r.offset ≡ some (record r { ret = 0; delivered = [] }))
    × (File.my_proc_write true 0 r.delivered (pos 7) ≡ some (pos r.ret, answer))
    × (File.my_proc_write true 0 (print_int answer) (pos 7) ≡ none)
my_proc_read-my_proc_write_example = my_proc_read-my_proc_write answer (pos 7) 4096 0 (omega arith)

-- A kernel in which only the pid 1 has a task, the task 11.
abbrev find_task : ℤ → Option ℕ
find_task (pos n) = if n == 1 then some 11 else none
find_task (negsuc n) = none

-- No task ends.
abbrev always : ℕ → ℕ → Bool
always sent task = true

abbrev writes : List (Signal.Writer × ℤ)
writes = ((21, 2), pos 10) ∷ ((31, 3), pos 12) ∷ []

abbrev tasks : Task.Tasks
tasks = record { pid_no = Task.unset; pid_allocated = λ ns. 100 }

dead_pid_example :
    (set : Task.Tasks) × (Task.my_proc_write find_task Task.proc_pid true 0
        (print_line answer)
        tasks
      ≡ some (pos (length (print_line answer)), set))
    × ((node : Task.Node) (left len offset : ℕ)
        → Task.my_proc_read find_task node set left len offset ≡ none)
    × ((node : Task.Node) (granted : Bool) (missed : ℕ) (buffer : List ℕ)
        → Task.my_proc_write find_task node granted missed buffer set ≡ none)
dead_pid_example = dead_pid find_task answer tasks (omega arith) (λ e. cc) refl refl

-- The pid 1, whose task is in the namespace 11.
abbrev first_pid : Task.Tasks
first_pid = record tasks { pid_no = pos 1 }

abbrev no_number : List ℕ
no_number = b'x' ∷ b'\n' ∷ []

no_number-scanned : scan_int no_number ≡ some none
unfolding scan_int scan_number
no_number-scanned = refl

nr_hashed-adds_example :
    (t : Task.Tasks) × (u : Task.Tasks) × (Task.my_proc_write find_task Task.proc_nr_hashed true 0
        (print_line answer)
        first_pid
      ≡ some (pos (length (print_line answer)), t))
    × IsSum 11 42 first_pid t
    × (Task.my_proc_read find_task Task.proc_nr_hashed t 0 4096 0 ≡ some (unsigned_reply (u32 142)))
    × (Task.my_proc_write find_task Task.proc_nr_hashed true 0 no_number first_pid
        ≡ some (pos 2, u))
    × IsSum 11 100 first_pid u
nr_hashed-adds_example =
    nr_hashed-adds find_task answer 11 first_pid no_number 4096 (omega arith) (λ e. cc) refl
      (omega arith) no_number-scanned

-- A tree with another module's file, and a kernel that refuses the directory and the second file.
abbrev bare : Entries.Tree
bare = record { entries = λ p. Entries.same (Entries.root 9) p; warnings = 0 }

abbrev grants : Entries.Grants
grants = record { dir = false; node_1 = true; node_2 = false }

exit-Restores_example :
    ((Entries.make_nodes grants bare).0 ≡ pos 0)
    × Restores 2 bare (Entries.remove_nodes grants (Entries.make_nodes grants bare).1)
    × ((Entries.sig_proc_init grants bare).0 ≡ pos 0)
    × ((Entries.task_proc_init grants bare).0 ≡ pos 0)
    × Restores 2 bare (Entries.sig_proc_exit grants (Entries.sig_proc_init grants bare).1)
    × Restores 2 bare (Entries.task_proc_exit grants (Entries.task_proc_init grants bare).1)
    × Restores 0 bare (Entries.my_proc_exit true (Entries.my_proc_init true bare).1)
    × (Entries.sysfs_exit (Entries.sysfs_init true (pos 0) nothing).1 ≡ some nothing)
    × (Entries.sysfs_init true (negsuc 11) nothing ≡ (negsuc 11, acquire kobject nothing))
exit-Restores_example =
    exit-Restores grants true bare 11 nothing
      (record { directory = refl; root_1 = refl; root_2 = refl; inside_1 = refl; inside_2 = refl })
