-- ===== src/Basic.antt =====
-- module_basic: modules that print when they are loaded and unloaded. second.c calls a function that
-- first.c exports; hello.c prints its parameter `irq`, which can be written while it is loaded.
use Prim.Native.String.{String}
use kernel_examples.Prelude.{◌≡◌, refl, List, [], ◌∷◌, ◌++◌}
use kernel_examples.Prelude.Int.{ℤ, pos}

-- A line of the kernel's log: a text, or one with a number printed into it.
pub data LogLine : Type 0 where
  plain : String → LogLine
  with_int : String → ℤ → LogLine

abbrev pub Log : Type 0
Log = List LogLine

abbrev pub printk : LogLine → Log → Log
printk line log = log ++ (line ∷ [])

pub first_init : Log → ℤ × Log
first_init log = (pos 0, printk (plain "Hello, I'm first\n") log)

pub first_exit : Log → Log
first_exit log = printk (plain "Bye, I'm first\n") log

pub first_func : Log → Log
first_func log = printk (plain "You call me, I'm first_func\n") log

pub second_init : Log → ℤ × Log
unfolding first_func
second_init log = (pos 0, first_func (printk (plain "Hello, I'm second\n") log))

pub second_exit : Log → Log
second_exit log = printk (plain "Goodbye, I'm second\n") log

pub hello_init : ℤ → Log → ℤ × Log
hello_init irq log = (pos 0, printk (with_int "irq = %d\n" irq) log)

pub hello_exit : ℤ → Log → Log
hello_exit irq log = printk (with_int "Bye. Bye..%d\n" irq) log

pub simple_init : Log → ℤ × Log
simple_init log = (pos 0, log)

pub simple_exit : Log → Log
simple_exit log = log

-- All loaded and unloaded again, with a new `irq` in between.
in_and_out :
    hello_exit (pos 7) (
      first_exit (
        second_exit
          (simple_exit (hello_init (pos 5) (simple_init (second_init (first_init []).1).1).1).1)))
    ≡ plain "Hello, I'm first\n"
      ∷ plain "Hello, I'm second\n"
      ∷ plain "You call me, I'm first_func\n"
      ∷ with_int "irq = %d\n" (pos 5)
      ∷ plain "Goodbye, I'm second\n"
      ∷ plain "Bye, I'm first\n"
      ∷ with_int "Bye. Bye..%d\n" (pos 7)
      ∷ []
unfolding first_init first_exit second_init second_exit hello_init hello_exit simple_init
    simple_exit
in_and_out = refl
