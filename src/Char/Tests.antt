-- ===== src/Char/Tests.antt =====
-- char_dev on pages of one byte, so that the buffer has ten.
use kernel_examples.Prelude.{
  ℕ, ◌+◌, ◌≤◌, ◌<◌, ◌≡◌, ◌↔◌, refl, arith, true, false, none, some, List, [], ◌∷◌, map, get_elem?,
  ◌==◌, if◌then◌else◌,
}
use kernel_examples.Kernel.{acquire, cdev_memory, nothing}
use kernel_examples.Char.Buffer.{Open, Reply, IsInside}
use kernel_examples.Char.Case.{to_upper}
use kernel_examples.Char.Udev
use kernel_examples.Char.Udev.Files
use kernel_examples.Char.Udev.Files.{FileCall, Shared, file_calls, all_heads, whole_tape}
use kernel_examples.Char.Udev.Files.Tape.{IsShared}
use kernel_examples.Char.Udev.Files.Calls.{AnswersInTurn, file_calls-tape}
use kernel_examples.Char.Udev.Session.{whole, PastEnds, past_end_faults}
use kernel_examples.Char.Dynamic.Session.{read, write, lseek, calls, IsOpen, calls-IsOpen}
use kernel_examples.Char.Seek.{my_lseek}
use kernel_examples.Char.Seek.Laws.{SeekEnds, my_lseek_lem}
use kernel_examples.Char.Raw
use kernel_examples.Char.Raw.Laws.{accesses_fault_iff}
use kernel_examples.Char.Setup.{
  Answers, Driver, udev_init, udev_exit, dynamic_init, dynamic_exit, mychar_init,
}
use kernel_examples.Char.Setup.Laws.{dynamic_left, udev_left, MycharEnds, Leaves, inits_leave}

abbrev digits : List ℕ
digits = 0 ∷ 1 ∷ 2 ∷ 3 ∷ 4 ∷ 5 ∷ 6 ∷ 7 ∷ 8 ∷ 9 ∷ []

abbrev at : ℕ → Open
at p = record { kbuf = digits; pos = p }

-- The bytes of "aB7".
abbrev text : List ℕ
text = b'a' ∷ b'B' ∷ b'7' ∷ []

text-IsInside : IsInside 1 3 (at 8)
text-IsInside = omega arith

no_misses : (n : ℕ) → whole n ≤ n
no_misses n = omega arith

to_upper-text : map to_upper text ≡ b'A' ∷ b'B' ∷ b'7' ∷ []
unfolding to_upper
to_upper-text = refl

-- Two files on the buffer: the first converts to capitals, the second reads what it wrote.
abbrev minors : ℕ → ℕ
minors file = if file == 0 then 2 else 0

abbrev shared_digits : Shared
shared_digits = record { kbuf = digits; positions = λ file. 8 }

abbrev two_calls : List FileCall
two_calls = Files.write 0 text ∷ Files.read 1 3 ∷ []

shared_digits-IsShared : IsShared 1 shared_digits
shared_digits-IsShared = record {
  sized = refl;
  small = omega arith;
  within_all = λ file. omega arith;
}

file_calls-tape_example :
    (s' : Shared) × (rs : List Reply) × (file_calls 1 whole minors two_calls shared_digits
      ≡ some (s', rs))
    × IsShared 1 s'
    × (s'.positions ≡ all_heads 1 whole two_calls (λ file. 8))
    × ((i : ℕ)
        → get_elem? s'.kbuf i
          ≡ whole_tape 1 whole minors two_calls (λ file. 8) (get_elem? digits) i)
    × AnswersInTurn 1 whole minors no_misses two_calls shared_digits rs
file_calls-tape_example =
    file_calls-tape 1 whole minors no_misses two_calls shared_digits shared_digits-IsShared
      (omega arith)

-- One byte past the end.
past_end_faults_example :
    PastEnds 1 (at 11) (Udev.my_read 1 whole (at 11) 3)
    × PastEnds 1 (at 11) (Udev.my_write 1 whole 2 (at 11) text)
past_end_faults_example =
    past_end_faults 1 2 whole (at 11) text refl (omega arith) (omega arith) (omega arith)
      (omega arith) (omega arith)

-- A seek to one byte before the position 3.
my_lseek_lem_example : SeekEnds 1 3 0xffff_ffff_ffff_ffff 1 (my_lseek 1 3 0xffff_ffff_ffff_ffff 1)
my_lseek_lem_example =
    my_lseek_lem 1 3 0xffff_ffff_ffff_ffff 1 (omega arith) (omega arith) (omega arith)

calls-IsOpen_example :
    (o' : Open) × (calls 1 whole (write text ∷ lseek 0xffff_ffff_ffff_ffff 0 ∷ read 4 ∷ []) (at 8)
      ≡ some o')
    × IsOpen 1 o'
calls-IsOpen_example =
    calls-IsOpen 1 whole no_misses (write text ∷ lseek 0xffff_ffff_ffff_ffff 0 ∷ read 4 ∷ []) (at 8)
      (omega arith) (omega arith)

accesses_fault_iff_example :
    ((Raw.my_read whole (at 8) 3 ≡ none) ↔ ((0 < 3) × (10 < 8 + 3)))
    × ((Raw.my_write whole (at 8) text ≡ none) ↔ ((0 < 3) × (10 < 8 + 3)))
    × (◌≡◌ {A = ℕ} 0 0
        → 0 < 3
        → 8 + 3 ≤ 10
        → (r : Reply) × (back : Reply) × (Raw.my_write whole (at 8) text ≡ some r)
          × (Raw.my_read whole (record r.after { pos = 8 }) 3 ≡ some back)
          × (back.delivered ≡ text))
accesses_fault_iff_example = accesses_fault_iff whole (at 8) no_misses text

-- cdev_add fails.
abbrev no_add : Answers
no_add = record { chrdev_region = true; cdev_alloc = true; kmalloc = true; cdev_add = false }

abbrev unloaded : Driver
unloaded = record { my_cdev = false; kbuf = false; held = nothing }

inits_leave_example :
    Leaves dynamic_exit
      (acquire cdev_memory nothing)
      (dynamic_left no_add nothing)
      (dynamic_init no_add unloaded)
    × Leaves
        (udev_exit 5)
        (acquire cdev_memory nothing)
        (udev_left no_add nothing)
        (udev_init 5 no_add unloaded)
    × MycharEnds true true unloaded (mychar_init no_add unloaded)
inits_leave_example = inits_leave 5 no_add unloaded refl
