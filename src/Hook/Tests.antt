-- ===== src/Hook/Tests.antt =====
-- syscalls/mysyscalls.c: a table whose entries are their numbers, and a name that does not end.
use kernel_examples.Prelude.{
  IsNonzero, ℕ, zero, suc, ◌+◌, ◌≡◌, ◌≢◌, arith, false, none, some, List, [], ◌∷◌, ◌++◌, replicate,
  All,
}
use Prim.Native.Nat.{bit_and}
use kernel_examples.Prelude.Int.{ℤ, pos}
use kernel_examples.Hook.{Symbols, Machine, nr_open, my_init, my_exit, myopen_call}
use kernel_examples.Hook.Laws.{my_exit-hook, myopen_call_lem}

abbrev symbols : Symbols
symbols = record { sys_call_table = 8192; set_pages_rw = 12288; myopen = 77 }

abbrev machine : Machine
machine = record { cr0 = 0x8005_003b; table = λ n. 100 + n; writable = false; orig_open = 0 }

my_exit-hook_example :
    (hooked : Machine) × (my_init symbols machine ≡ some (pos 0, hooked))
    × (hooked.table nr_open ≡ 77)
    × ((n : ℕ) → n ≢ nr_open → hooked.table n ≡ machine.table n)
    × ((my_exit hooked).table ≡ machine.table)
    × ((my_exit hooked).cr0 ≡ bit_and machine.cr0 0xfffe_ffff)
my_exit-hook_example =
    my_exit-hook symbols machine (λ e. omega arith) (λ e. omega arith) (λ e. omega arith)

abbrev call : ℕ → List ℕ → ℤ
call handler filename = pos handler

-- A name of so many letters a.
abbrev name : ℕ → List ℕ
name n = replicate n b'a'

name-IsNonzero : (n : ℕ) → All IsNonzero (name n)
name-IsNonzero zero = tt
name-IsNonzero (suc n) = (λ e. omega arith, name-IsNonzero n)

-- 300 letters, whole, before a byte that is not zero.
myopen_call_lem_example : myopen_call call (name 300 ++ (0 ∷ [])) 0 9 machine ≡ none
myopen_call_lem_example =
    myopen_call_lem call (name 300) [] 0 9 machine (omega arith) (name-IsNonzero 300)
