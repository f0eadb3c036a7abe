-- ===== src/Hook.antt =====
-- syscalls/mysyscalls.c: an entry of the system call table that is exchanged and put back. Pointers
-- are numbers, 0 being null; `none` is a null pointer that is used, or a read outside an array.
pub mod Laws
mod Tests
use Prim.Native.Nat.{bit_and}
use kernel_examples.Prelude.{
  ℕ, ◌+◌, ◌-◌, Bool, true, Option, none, some, List, [], ◌∷◌, ◌++◌, take, replicate, ◌==◌, ◌||◌,
  if◌then◌else◌, ◌>>=◌, c_string,
}
use kernel_examples.Prelude.Int.{ℤ, pos}
use kernel_examples.Kernel.{fail}

-- What kallsyms_lookup_name finds, and where myopen is.
pub record Symbols : Type 0 where
  pub sys_call_table : ℕ
  pub set_pages_rw : ℕ
  pub myopen : ℕ

-- The control register, the table and whether its page can be written, and orig_open.
pub record Machine : Type 0 where
  pub cr0 : ℕ
  pub table : ℕ → ℕ
  pub writable : Bool
  pub orig_open : ℕ

abbrev pub nr_open : ℕ
nr_open = 2

abbrev pub set_entry : ℕ → (ℕ → ℕ) → ℕ → ℕ
set_entry p table n = if n == nr_open then p else table n

pub my_init : Symbols → Machine → Option (ℤ × Machine)
my_init k m =
    let open_page = record m { cr0 = bit_and m.cr0 0xfffe_ffff; writable = true } in
    if k.set_pages_rw == 0 || k.sys_call_table == 0
    then none
    else some (
      pos 0,
      record open_page { orig_open = m.table nr_open; table = set_entry k.myopen m.table },
    )

-- cr0 is left as it is: the line that would restore it is commented out.
pub my_exit : Machine → Machine
my_exit m = if m.orig_open == 0 then m else record m { table = set_entry m.orig_open m.table }

-- `tmpname` behind copy_from_user of 255 bytes, of which the last `missed` are zero; the byte behind
-- them is what stood on the stack.
abbrev pub tmpname : List ℕ → ℕ → ℕ → List ℕ
tmpname filename missed stack = take (255 - missed) filename ++ (replicate missed 0 ++ (stack ∷ []))

-- The name that is printed and what is returned; `call` is what a handler answers.
pub myopen_call : (ℕ → List ℕ → ℤ) → List ℕ → ℕ → ℕ → Machine → Option (List ℕ × ℤ)
myopen_call call filename missed stack m = do
  printed ← c_string (tmpname filename missed stack)
  some (printed, if m.orig_open == 0 then fail 1 else call m.orig_open filename)
