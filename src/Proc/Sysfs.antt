-- ===== src/Proc/Sysfs.antt =====
-- filesystem/my_sysfs.c: the attribute foo.
use kernel_examples.Prelude.{ℕ, ◌≡◌, refl, Option, none, some, List, [], ◌∷◌, ◌++◌, length, ◌>>=◌}
use kernel_examples.Prelude.Int.{ℤ}
use kernel_examples.Proc.Text.{print_int, print_line, scan_int}
use kernel_examples.Proc.Text.Laws.{IsInt, scan_int-print_line, scan_int-terminated}

-- sysfs gives the attribute a page, far more than a line takes.
pub foo_show : ℤ → ℕ × List ℕ
foo_show foo = (length (print_line foo), print_line foo)

-- sysfs puts a zero byte behind what was written.
pub foo_store : List ℕ → ℤ → Option (ℕ × ℤ)
foo_store buf foo = do
  converted ← scan_int (buf ++ (0 ∷ []))
  some (length buf, elim converted [ none ↦ foo | some n ↦ n ])

-- What foo_show prints for an int foo_store takes back: it accepts every byte and sets foo to the number shown.
-- It does so without the end of the line too.
foo_store-foo_show :
    (n foo : ℤ)
    → IsInt n
    → (foo_store (foo_show n).1 foo ≡ some ((foo_show n).0, n))
      × (foo_store (print_int n) foo ≡ some (length (print_int n), n))
unfolding foo_store foo_show
foo_store-foo_show n foo h =
    (rw (scan_int-print_line n (0 ∷ []) h) refl, rw (scan_int-terminated n 0 [] h refl) refl)
