-- ===== src/Proc/Task/Laws.antt =====
-- debug/task_proc.c: a pid without a task, and the count of a task's namespace.
use kernel_examples.Prelude.{
  ℕ, ◌+◌, ◌^◌, ◌≡◌, ◌≢◌, ◌<◌, ◌≤◌, refl, ap, ◌∙◌, arith, Bool, true, Option, none, some, List, [],
  ◌∷◌, length, length-append, suc, zero, eq→==, ne→==, ◌%◌, Bool-cases, inl, inr, ltb, ltb→lt,
  ltb→le,
}
use kernel_examples.Prelude.Int.{ℤ, pos, negsuc}
use kernel_examples.Kernel.{u32, signed32, signed32_small, signed32_large}
use kernel_examples.Proc.Text.{print_digits, max_digits, print_line, scan_int}
use kernel_examples.Proc.Text.Laws.{IsInt, length-print_digits}
use kernel_examples.Proc.File.{Reply}
use kernel_examples.Proc.File.Laws.{read_text_whole, write_text-print_line, write_text_unconverted}
use kernel_examples.Proc.Task.{
  Node, proc_pid, proc_nr_hashed, Tasks, unset, print_unsigned, data_size, pattern, add_to, pid_ns,
  my_proc_read, my_proc_write,
}

abbrev pub unsigned_reply : ℕ → Reply
unsigned_reply n = record {
  ret = length (print_unsigned n);
  delivered = print_unsigned n;
  offset = length (print_unsigned n) + 1;
}

pattern-signed32 : (w : ℕ) → w < 2 ^ 32 → pattern (signed32 w) ≡ w
pattern-signed32 w h = elim (Bool-cases (ltb w (2 ^ 31))) [
  | inl small ↦ ap pattern (signed32_small w (ltb→lt w (2 ^ 31) small))
  | inr large ↦ ap pattern (signed32_large w (ltb→le w (2 ^ 31) large) h) ∙ omega arith
]

length-print_unsigned : (n : ℕ) → length (print_unsigned n) ≤ 11
unfolding print_unsigned
length-print_unsigned n = omega (
  arith,
  length-print_digits max_digits n,
  length-append {A = ℕ} (print_digits max_digits n) (b'\n' ∷ []),
)

added : (ns n : ℕ) (s : Tasks) → (add_to ns n s).pid_allocated ns ≡ u32 (s.pid_allocated ns + n)
added ns n s = rw (eq→== ns ns refl) refl

-- `t` differs from `s` by so much in the count of the namespace, and in nothing else.
pub record IsSum (ns n : ℕ) (s t : Tasks) : Type 0 where
  pub sum : t.pid_allocated ns ≡ (s.pid_allocated ns + n) % 2 ^ 32
  pub others : (m : ℕ) → m ≢ ns → t.pid_allocated m ≡ s.pid_allocated m
  pub pid_kept : t.pid_no ≡ s.pid_no

add_to-IsSum : (ns n : ℕ) (s : Tasks) → IsSum ns n s (add_to ns n s)
add_to-IsSum ns n s = record {
  sum = added ns n s;
  others = λ m other. rw (ne→== m ns other) refl;
  pid_kept = refl;
}

module _ (find_task : ℤ → Option ℕ) where
  pid_ns-none : (pid : ℤ) → pid ≢ unset → find_task pid ≡ none → pid_ns find_task pid ≡ none
  unfolding pid_ns
  pid_ns-none (pos n) h e = rw e refl
  pid_ns-none (negsuc zero) h e = absurd (h refl)
  pid_ns-none (negsuc (suc n)) h e = rw e refl

  pid_ns-some :
      (pid : ℤ) (ns : ℕ)
      → pid ≢ unset
      → find_task pid ≡ some ns
      → pid_ns find_task pid ≡ some (some ns)
  unfolding pid_ns
  pid_ns-some (pos n) ns h e = rw e refl
  pid_ns-some (negsuc zero) ns h e = absurd (h refl)
  pid_ns-some (negsuc (suc n)) ns h e = rw e refl

  pid_ns-unset : pid_ns find_task unset ≡ some none
  unfolding pid_ns
  pid_ns-unset = refl

  read_dead :
      (node : Node) (s : Tasks) (left len offset : ℕ)
      → pid_ns find_task s.pid_no ≡ none
      → my_proc_read find_task node s left len offset ≡ none
  unfolding my_proc_read
  read_dead proc_pid s left len offset e = rw e refl
  read_dead proc_nr_hashed s left len offset e = rw e refl

  write_dead :
      (node : Node) (s : Tasks) (granted : Bool) (missed : ℕ) (buffer : List ℕ)
      → pid_ns find_task s.pid_no ≡ none
      → my_proc_write find_task node granted missed buffer s ≡ none
  unfolding my_proc_write
  write_dead proc_pid s granted missed buffer e = rw e refl
  write_dead proc_nr_hashed s granted missed buffer e = rw e refl

  -- A write of a pid where none is set.
  write_pid :
      (pid : ℤ) (s : Tasks)
      → IsInt pid
      → s.pid_no ≡ unset
      → my_proc_write find_task proc_pid true 0 (print_line pid) s
        ≡ some (pos (length (print_line pid)), record s { pid_no = pid })
  unfolding my_proc_write
  write_pid pid s i u =
      rw (ap (pid_ns find_task) u ∙ pid_ns-unset, write_text-print_line pid s.pid_no i) refl

  -- A pid that is an int, not -1, and has no task is accepted from a user while none is set. From then
  -- on every read and every write of both files is a fault, so that no other pid can be set any more.
  pub dead_pid :
      (pid : ℤ) (s : Tasks)
      → IsInt pid
      → pid ≢ unset
      → find_task pid ≡ none
      → s.pid_no ≡ unset
      → (set : Tasks) × (my_proc_write find_task proc_pid true 0 (print_line pid) s
          ≡ some (pos (length (print_line pid)), set))
        × ((node : Node) (left len offset : ℕ)
            → my_proc_read find_task node set left len offset ≡ none)
        × ((node : Node) (granted : Bool) (missed : ℕ) (buffer : List ℕ)
            → my_proc_write find_task node granted missed buffer set ≡ none)
  dead_pid pid s i h e u =
      let dead = pid_ns-none pid h e in
      (
        record s { pid_no = pid },
        write_pid pid s i u,
        λ node left len offset. read_dead node (record s { pid_no = pid }) left len offset dead,
        λ node granted missed buffer.
            write_dead node (record s { pid_no = pid }) granted missed buffer dead,
      )

  -- With a pid other than -1 that has a task, a count that is a 32-bit word, and an int written as a
  -- line to the other file: it is added to the count of the task's namespace, as 32-bit words, and to no
  -- other; the pid stays; and the file then shows the sum. Text in which no number is found adds the
  -- count to itself, and again changes no other.
  pub nr_hashed-adds :
      (n : ℤ) (ns : ℕ) (s : Tasks) (buffer : List ℕ) (len : ℕ)
      → IsInt n
      → s.pid_no ≢ unset
      → find_task s.pid_no ≡ some ns
      → s.pid_allocated ns < 2 ^ 32
      → scan_int buffer ≡ some none
      → (t : Tasks) × (u : Tasks) × (my_proc_write find_task proc_nr_hashed true 0 (print_line n) s
          ≡ some (pos (length (print_line n)), t))
        × IsSum ns (pattern n) s t
        × (my_proc_read find_task proc_nr_hashed t 0 len 0
            ≡ some (unsigned_reply (u32 (s.pid_allocated ns + pattern n))))
        × (my_proc_write find_task proc_nr_hashed true 0 buffer s ≡ some (pos (length buffer), u))
        × IsSum ns (s.pid_allocated ns) s u
  unfolding my_proc_read my_proc_write
  nr_hashed-adds n ns s buffer len i h e w t =
      let live = pid_ns-some s.pid_no ns h e in
      (
        add_to ns (pattern n) s,
        add_to ns (s.pid_allocated ns) s,
        rw (live, write_text-print_line n (signed32 (s.pid_allocated ns)) i) refl,
        add_to-IsSum ns (pattern n) s,
        rw live (
            read_text_whole data_size (print_unsigned ((add_to ns (pattern n) s).pid_allocated ns))
              len
              (omega (arith, length-print_unsigned ((add_to ns (pattern n) s).pid_allocated ns)))
            ∙ ap (λ k. some (unsigned_reply k)) (added ns (pattern n) s)),
        rw (live, write_text_unconverted buffer (signed32 (s.pid_allocated ns)) t)
            (ap (λ k. some (pos (length buffer), add_to ns k s))
              (pattern-signed32 (s.pid_allocated ns) w)),
        add_to-IsSum ns (s.pid_allocated ns) s,
      )
