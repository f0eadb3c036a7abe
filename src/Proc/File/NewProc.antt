-- ===== src/Proc/File/NewProc.antt =====
-- filesystem/my_new_proc.c: two files behind the same operations.
pub mod Laws
use kernel_examples.Prelude.{ℕ, Bool, not, Option, none, some, List, ◌==◌, if◌then◌else◌, ◌>>=◌}
use kernel_examples.Prelude.Int.{ℤ}
use kernel_examples.Kernel.{fail, efault, einval}
use kernel_examples.Proc.Text.{print_line}
use kernel_examples.Proc.File.{Reply, mydata_size, read_text, write_text}

pub record Params : Type 0 where
  pub param_1 : ℤ
  pub param_2 : ℤ

-- `data` is what proc_create_data gave the file, 1 or 2.
pub my_proc_read : Params → ℕ → ℕ → ℕ → ℕ → Option Reply
my_proc_read p pde_data left len offset =
    let first = if pde_data == 1 then some (print_line p.param_1) else none in
    let text = if pde_data == 2 then some (print_line p.param_2) else first in
    read_text mydata_size text left len offset

pub my_proc_write : Params → ℕ → Bool → ℕ → List ℕ → Option (ℤ × Params)
my_proc_write p pde_data granted missed buffer =
    if pde_data == 1
    then (do
      (ret, n) ← write_text granted missed buffer p.param_1
      some (ret, record p { param_1 = n }))
    else if pde_data == 2
    then (do
      (ret, n) ← write_text granted missed buffer p.param_2
      some (ret, record p { param_2 = n }))
    else if not granted
    then none
    else some (if missed == 0 then fail einval else fail efault, p)
