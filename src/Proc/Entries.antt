-- ===== src/Proc/Entries.antt =====
-- filesystem and debug: the entries of /proc and /sys that the modules make and remove. The name of
-- the directory, of the first file and of the second are 0, 1 and 2.
pub mod Laws
use kernel_examples.Prelude.{ℕ, ◌+◌, Bool, true, false, Option, some, ◌==◌, ◌||◌, if◌then◌else◌}
use kernel_examples.Prelude.Int.{ℤ, pos}
use kernel_examples.Kernel.{Ledger, acquire, release, kobject, fail, enomem}

-- A name below /proc, or below the module's directory.
pub data Place : Type 0 where
  root inside : ℕ → Place

abbrev pub same : Place → Place → Bool
same (root n) (root m) = n == m
same (root n) (inside m) = false
same (inside n) (root m) = false
same (inside n) (inside m) = n == m

-- What is there, and how often the kernel warned of a name that is to be removed and is not there.
pub record Tree : Type 0 where
  pub entries : Place → Bool
  pub warnings : ℕ

-- proc_mkdir, proc_create and proc_create_data, where the kernel grants it.
unfoldable pub create : Bool → Place → Tree → Tree
create granted p t = record t {
  entries = λ q. if same p q then granted || t.entries q else t.entries q;
}

-- remove_proc_entry.
unfoldable pub remove : Place → Tree → Tree
remove p t =
    if t.entries p
    then record t { entries = λ q. if same p q then false else t.entries q }
    else record t { warnings = t.warnings + 1 }

-- Which of the three are granted; `dir` is also whether the pointer to the directory is set. Where it
-- is null the files are made below /proc.
pub record Grants : Type 0 where
  pub dir : Bool
  pub node_1 : Bool
  pub node_2 : Bool

abbrev pub below : Bool → ℕ → Place
below dir n = if dir then inside n else root n

-- my_init of my_new_proc.c: the three pointers are not looked at.
pub make_nodes : Grants → Tree → ℤ × Tree
make_nodes g t =
    let made = create g.dir (root 0) t in
    let first = create g.node_1 (below g.dir 1) made in
    (pos 0, create g.node_2 (below g.dir 2) first)

-- Its my_exit.
pub remove_nodes : Grants → Tree → Tree
remove_nodes g t = remove (root 0) (remove (below g.dir 2) (remove (below g.dir 1) t))

-- sig_proc.c and task_proc.c do the same, with names of their own.
abbrev pub sig_proc_init : Grants → Tree → ℤ × Tree
sig_proc_init g t = make_nodes g t

abbrev pub sig_proc_exit : Grants → Tree → Tree
sig_proc_exit g t = remove_nodes g t

abbrev pub task_proc_init : Grants → Tree → ℤ × Tree
task_proc_init g t = make_nodes g t

abbrev pub task_proc_exit : Grants → Tree → Tree
task_proc_exit g t = remove_nodes g t

-- my_init and my_exit of my_proc.c, which look at the pointer.
pub my_proc_init : Bool → Tree → ℤ × Tree
my_proc_init granted t = if granted then (pos 0, create true (root 1) t) else (fail 1, t)

pub my_proc_exit : Bool → Tree → Tree
my_proc_exit my_proc t = if my_proc then remove (root 1) t else t

-- my_init and my_exit of my_sysfs.c; `error` is what sysfs_create_file answers.
pub sysfs_init : Bool → ℤ → Ledger → ℤ × Ledger
sysfs_init created error l = if created then (error, acquire kobject l) else (fail enomem, l)

pub sysfs_exit : Ledger → Option Ledger
sysfs_exit l = release kobject l
