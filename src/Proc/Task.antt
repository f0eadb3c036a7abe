-- ===== src/Proc/Task.antt =====
-- debug/task_proc.c: a file for a pid, and one for the count of pids in the namespace of its task.
-- Which pid has a task, and in which namespace, is the kernel's, an argument.
pub mod Laws
use kernel_examples.Prelude.{
  ℕ, zero, suc, ◌+◌, ◌-◌, ◌^◌, Bool, not, Option, none, some, List, [], ◌∷◌, ◌++◌, length, ◌==◌,
  if◌then◌else◌, ◌>>=◌,
}
use kernel_examples.Prelude.Int.{ℤ, pos, negsuc}
use kernel_examples.Kernel.{u32, signed32}
use kernel_examples.Proc.Text.{print_digits, max_digits, print_line}
use kernel_examples.Proc.File.{Reply, read_text, write_text}

pub data Node : Type 0 where
  proc_pid proc_nr_hashed : Node

-- pid_no, and pid_allocated of each namespace, an unsigned int.
pub record Tasks : Type 0 where
  pub pid_no : ℤ
  pub pid_allocated : ℕ → ℕ

abbrev pub unset : ℤ
unset = negsuc 0

-- "%u\n"
pub print_unsigned : ℕ → List ℕ
print_unsigned n = print_digits max_digits n ++ (b'\n' ∷ [])

-- The pattern of an int.
abbrev pub pattern : ℤ → ℕ
pattern (pos n) = n
pattern (negsuc n) = 2 ^ 32 - n - 1

-- The size of `data`.
abbrev pub data_size : ℕ
data_size = 1024

abbrev pub add_to : ℕ → ℕ → Tasks → Tasks
add_to ns n s = record s {
  pid_allocated = λ m. if m == ns then u32 (s.pid_allocated m + n) else s.pid_allocated m;
}

abbrev pub nr_hashed : Option ℕ → Tasks → ℕ
nr_hashed none s = 0
nr_hashed (some ns) s = s.pid_allocated ns

module _ (find_task : ℤ → Option ℕ) where
  -- Both operations look the pid up first. `none` is task_active_pid_ns of a null pointer.
  pub pid_ns : ℤ → Option (Option ℕ)
  pid_ns (negsuc zero) = some none
  pid_ns (negsuc (suc n)) = do ns ← find_task (negsuc (suc n)); some (some ns)
  pid_ns (pos n) = do ns ← find_task (pos n); some (some ns)

  pub my_proc_read : Node → Tasks → ℕ → ℕ → ℕ → Option Reply
  my_proc_read proc_pid s left len offset = do
    ns ← pid_ns s.pid_no
    read_text data_size (some (print_line s.pid_no)) left len offset
  my_proc_read proc_nr_hashed s left len offset = do
    ns ← pid_ns s.pid_no
    read_text data_size (some (print_unsigned (nr_hashed ns s))) left len offset

  -- What is scanned replaces nr_hashed, and nothing does where nothing is converted.
  pub my_proc_write : Node → Bool → ℕ → List ℕ → Tasks → Option (ℤ × Tasks)
  my_proc_write proc_pid granted missed buffer s = do
    ns ← pid_ns s.pid_no
    (ret, n) ← write_text granted missed buffer s.pid_no
    some (ret, record s { pid_no = n })
  my_proc_write proc_nr_hashed granted missed buffer s = do
    ns ← pid_ns s.pid_no
    (ret, n) ← write_text granted missed buffer (signed32 (nr_hashed ns s))
    some (ret, if missed == 0 then elim ns [ none ↦ s | some m ↦ add_to m (pattern n) s ] else s)
