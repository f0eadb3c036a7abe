-- ===== src/Proc/File/Laws.antt =====
-- filesystem: reading and writing a parameter through a file.
use kernel_examples.Prelude.{
  ℕ, ◌+◌, ◌-◌, ◌<◌, ◌≡◌, refl, ap, arith, true, none, some, List, [], length, take_exact, lt→ltb,
  le→ltb,
}
use kernel_examples.Prelude.Int.{ℤ, pos}
use kernel_examples.Proc.Text.{print_int, print_line, scan_int}
use kernel_examples.Proc.Text.Laws.{IsInt, scan_int_line, scan_int-unterminated, length-print_line}
use kernel_examples.Proc.File.{
  Reply, mydata_size, read_text, write_text, my_proc_read, my_proc_write,
}

abbrev pub line_reply : ℤ → Reply
line_reply n = record {
  ret = length (print_line n);
  delivered = print_line n;
  offset = length (print_line n) + 1;
}

pub read_text_whole :
    (size : ℕ) (text : List ℕ) (len : ℕ)
    → length text < size
    → read_text size (some text) 0 len 0
      ≡ some (record { ret = length text; delivered = text; offset = length text + 1 })
unfolding read_text
read_text_whole size text len fits =
    rw
      (
        lt→ltb (length text) size fits,
        le→ltb (length text) 0 (omega arith),
        take_exact (length text - 0) text (omega arith),
      )
      (ap (λ k. some (record { ret = k; delivered = text; offset = length text + 1 }))
        (omega arith))

pub read_text-print_line :
    (size : ℕ) (n : ℤ) (len : ℕ)
    → 12 < size
    → read_text size (some (print_line n)) 0 len 0 ≡ some (line_reply n)
read_text-print_line size n len big =
    read_text_whole size (print_line n) len (omega (arith, length-print_line n))

pub write_text_unconverted :
    (buffer : List ℕ) (param : ℤ)
    → scan_int buffer ≡ some none
    → write_text true 0 buffer param ≡ some (pos (length buffer), param)
unfolding write_text
write_text_unconverted buffer param e = rw e refl

pub read_text_end :
    (size : ℕ) (n : ℤ) (left len offset : ℕ)
    → 12 < size
    → length (print_line n) < offset
    → read_text size (some (print_line n)) left len offset
      ≡ some (record { ret = 0; delivered = []; offset = offset })
unfolding read_text
read_text_end size n left len offset big h =
    let fits = length-print_line n in
    rw (lt→ltb (length (print_line n)) size (omega arith), lt→ltb (length (print_line n)) offset h)
      refl

pub write_text-print_line :
    (n param : ℤ)
    → IsInt n
    → write_text true 0 (print_line n) param ≡ some (pos (length (print_line n)), n)
unfolding write_text
write_text-print_line n param h = rw (scan_int_line n h) refl

my_proc_write-unterminated :
    (n param : ℤ) → IsInt n → my_proc_write true 0 (print_int n) param ≡ none
unfolding my_proc_write write_text
my_proc_write-unterminated n param h = rw (scan_int-unterminated n h) refl

-- The parameter is an int. A read from the start delivers the whole line of the parameter, however few bytes were asked for;
-- the next read ends the file; and the line, written to the file, sets the parameter to the number
-- that it was, whatever it is by then. The number written without
-- the end of the line makes the scan leave the memory that holds what was written.
pub my_proc_read-my_proc_write :
    (n param : ℤ) (len left : ℕ)
    → IsInt n
    → (r : Reply) × (my_proc_read n 0 len 0 ≡ some r)
      × (r.delivered ≡ print_line n)
      × (my_proc_read n left len r.offset ≡ some (record r { ret = 0; delivered = [] }))
      × (my_proc_write true 0 r.delivered param ≡ some (pos r.ret, n))
      × (my_proc_write true 0 (print_int n) param ≡ none)
unfolding my_proc_read my_proc_write
my_proc_read-my_proc_write n param len left h = (
  line_reply n,
  read_text-print_line mydata_size n len (omega arith),
  refl,
  read_text_end mydata_size n left len (length (print_line n) + 1) (omega arith) (omega arith),
  write_text-print_line n param h,
  my_proc_write-unterminated n param h,
)
