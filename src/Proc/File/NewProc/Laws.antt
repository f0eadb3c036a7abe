-- ===== src/Proc/File/NewProc/Laws.antt =====
-- filesystem/my_new_proc.c: each file has its own parameter.
use kernel_examples.Prelude.{ℕ, ◌≡◌, refl, arith, Bool, true, false, not, some, length}
use kernel_examples.Prelude.Int.{ℤ, pos}
use kernel_examples.Proc.Text.{print_line}
use kernel_examples.Proc.Text.Laws.{IsInt}
use kernel_examples.Proc.File.{mydata_size}
use kernel_examples.Proc.File.Laws.{line_reply, read_text-print_line, write_text-print_line}
use kernel_examples.Proc.File.NewProc.{Params, my_proc_read, my_proc_write}

-- What proc_create_data gives the two files.
abbrev pub file : Bool → ℕ
file false = 1
file true = 2

-- An int written as a line to one of the two files is what a read of that file then delivers, and
-- every read of the other file goes as before.
my_proc_write-my_proc_read :
    (second : Bool) (n : ℤ) (p : Params) (len left offset : ℕ)
    → IsInt n
    → (q : Params) × (my_proc_write p (file second) true 0 (print_line n)
        ≡ some (pos (length (print_line n)), q))
      × (my_proc_read q (file second) 0 len 0 ≡ some (line_reply n))
      × (my_proc_read q (file (not second)) left len offset
          ≡ my_proc_read p (file (not second)) left len offset)
unfolding my_proc_write my_proc_read
my_proc_write-my_proc_read false n p len left offset h = (
  record p { param_1 = n },
  rw (write_text-print_line n p.param_1 h) refl,
  read_text-print_line mydata_size n len (omega arith),
  refl,
)
my_proc_write-my_proc_read true n p len left offset h = (
  record p { param_2 = n },
  rw (write_text-print_line n p.param_2 h) refl,
  read_text-print_line mydata_size n len (omega arith),
  refl,
)
