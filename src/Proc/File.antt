-- ===== src/Proc/File.antt =====
-- filesystem: the file of my_proc.c, with what the files of my_new_proc.c and sig_proc.c share with it.
pub mod Laws
pub mod NewProc
use kernel_examples.Prelude.{
  ℕ, ◌+◌, ◌-◌, Bool, not, Option, none, some, List, [], length, take, ltb, ◌==◌, if◌then◌else◌,
  ◌>>=◌,
}
use kernel_examples.Prelude.Int.{ℤ, pos}
use kernel_examples.Kernel.{fail, efault}
use kernel_examples.Proc.Text.{print_line, scan_int}

-- What a read returns, the bytes that it leaves at the reader's address, and *offset behind it.
pub record Reply : Type 0 where
  pub ret : ℕ
  pub delivered : List ℕ
  pub offset : ℕ

-- The size of `mydata`.
abbrev pub mydata_size : ℕ
mydata_size = 20

-- The reply from the text in `mydata`; `left` of its last bytes cannot be copied.
abbrev pub reply : List ℕ → ℕ → ℕ → Reply
reply mydata left offset =
    if ltb (length mydata) offset
    then record { ret = 0; delivered = []; offset = offset }
    else record {
      ret = length mydata - left;
      delivered = take (length mydata - left) mydata;
      offset = length mydata + 1;
    }

-- What the reads share, with the size of the array. The `len` of the caller plays no part in it. `none` is a text that does not
-- fit, or one that was never written.
pub read_text : ℕ → Option (List ℕ) → ℕ → ℕ → ℕ → Option Reply
read_text size text left len offset = do
  mydata ← text
  if ltb (length mydata) size then some (reply mydata left offset) else none

-- kmalloc and copy_from_user answer; without memory the copy goes to a null pointer, which is
-- `none`, as is a scan that leaves the memory.
pub write_text : Bool → ℕ → List ℕ → ℤ → Option (ℤ × ℤ)
write_text granted missed buffer param =
    if not granted then none else if not (missed == 0) then some (fail efault, param) else (do
      converted ← scan_int buffer
      some (pos (length buffer), elim converted [ none ↦ param | some n ↦ n ]))

-- my_proc.c, on its `param`.
pub my_proc_read : ℤ → ℕ → ℕ → ℕ → Option Reply
my_proc_read param left len offset = read_text mydata_size (some (print_line param)) left len offset

pub my_proc_write : Bool → ℕ → List ℕ → ℤ → Option (ℤ × ℤ)
my_proc_write granted missed buffer param = write_text granted missed buffer param
