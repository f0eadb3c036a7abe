-- ===== src/Proc/Signal.antt =====
-- filesystem/sig_proc.c: a file for a pid, and one whose writes send a signal. The task of a pid is
-- the kernel's, an argument; a task is known by its number.
pub mod Laws
use kernel_examples.Prelude.{
  ℕ, Bool, not, Option, none, some, List, [], ◌∷◌, ◌++◌, length, ◌==◌, if◌then◌else◌, ◌>>=◌,
}
use kernel_examples.Prelude.Int.{ℤ, pos, negsuc}
use kernel_examples.Kernel.{fail, efault, einval}
use kernel_examples.Proc.Text.{print_line}
use kernel_examples.Proc.File.{Reply, read_text, write_text}

-- The pointers that proc_create_data gave the files.
pub data Node : Type 0 where
  proc_pid proc_signal : Node

pub record Signals : Type 0 where
  pub sig_pid : ℤ
  pub sig_tosend : ℤ
  pub sig_tsk : Option ℕ
  pub sent : List (ℤ × ℕ)  -- send_sig, in order: the signal and the task

abbrev pub loaded : Signals
loaded = record { sig_pid = negsuc 0; sig_tosend = pos 10; sig_tsk = none; sent = [] }

-- send_sig, once there is a task.
abbrev pub send_to : ℕ → Signals → Signals
send_to task s = record s { sig_tsk = some task; sent = s.sent ++ ((s.sig_tosend, task) ∷ []) }

-- The writer is `current`, with its pid.
abbrev pub Writer : Type 0
Writer = ℕ × ℕ

-- `data[1024]`
abbrev pub data_size : ℕ
data_size = 1024

pub my_proc_read : Node → Signals → ℕ → ℕ → ℕ → Option Reply
my_proc_read proc_pid s left len offset =
    read_text data_size (some (print_line s.sig_pid)) left len offset
my_proc_read proc_signal s left len offset =
    read_text data_size (some (print_line s.sig_tosend)) left len offset

-- sig_tsk is a pointer, and the module takes no reference to the task behind it: `alive` is whether a
-- task is still there once so many signals were sent.
module _ (find_task : ℤ → Option ℕ) (alive : ℕ → ℕ → Bool) where
  -- `none` is a signal to a task that is gone. The writer itself is there.
  abbrev pub send_sig : Writer → Signals → Option Signals
  send_sig (current, pid) s = elim s.sig_tsk [
    | none ↦ some (send_to current (record s { sig_pid = pos pid }))
    | some task ↦ if alive (length s.sent) task then some (send_to task s) else none
  ]

  pub my_proc_write : Node → Writer → Bool → ℕ → List ℕ → Signals → Option (ℤ × Signals)
  my_proc_write proc_pid writer granted missed buffer s = do
    (ret, n) ← write_text granted missed buffer s.sig_pid
    some (ret, if missed == 0 then record s { sig_pid = n; sig_tsk = find_task n } else s)
  my_proc_write proc_signal writer granted missed buffer s = do
    (ret, n) ← write_text granted missed buffer s.sig_tosend
    after ← (if missed == 0 then send_sig writer (record s { sig_tosend = n }) else some s)
    some (ret, after)
