-- ===== src/Proc/Signal/Laws.antt =====
-- filesystem/sig_proc.c: who gets the signals.
use kernel_examples.Prelude.{ℕ, ◌≡◌, Bool, true, Option, none, some, List, [], ◌∷◌, ◌>>=◌}
use kernel_examples.Prelude.Int.{ℤ}
use kernel_examples.Proc.Text.{print_line}
use kernel_examples.Proc.Text.Laws.{IsInt}
use kernel_examples.Proc.Signal.{proc_signal, Signals, Writer, my_proc_write}

-- Each writer with the signal that it writes, as a line.
abbrev pub Writes : Type 0
Writes = List (Writer × ℤ)

-- The task that signals go to.
abbrev pub receiver : Writes → Option ℕ → ℕ
receiver writes (some task) = task
receiver [] none = 0
receiver (((current, pid), n) ∷ writes) none = current

abbrev pub addressed : ℕ → Writes → List (ℤ × ℕ)
addressed task [] = []
addressed task ((writer, n) ∷ writes) = (n, task) ∷ addressed task writes

abbrev pub AreInts : Writes → Type 0
AreInts [] = Unit
AreInts ((writer, n) ∷ writes) = IsInt n × AreInts writes

module _ (find_task : ℤ → Option ℕ) (alive : ℕ → ℕ → Bool) where
  abbrev pub Stays : ℕ → Type 0
  Stays task = (sent : ℕ) → alive sent task ≡ true

  pub write_all : Writes → Signals → Option Signals
  write_all [] s = some s
  write_all ((writer, n) ∷ writes) s = do
    (ret, after) ← my_proc_write find_task alive proc_signal writer true 0 (print_line n) s
    write_all writes after
