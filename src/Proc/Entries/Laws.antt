-- ===== src/Proc/Entries/Laws.antt =====
-- filesystem and debug: unloading removes exactly what was made, and warns of the rest.
use kernel_examples.Prelude.{
  ℕ, ◌+◌, ◌≡◌, refl, sym, ap, ◌∙◌, arith, Bool, true, false, Bool-cases, inl, inr, some, ==→eq,
  ◌||◌, if◌then◌else◌,
}
use kernel_examples.Prelude.Int.{pos, negsuc}
use kernel_examples.Kernel.{Ledger, acquire, kobject, release-acquire}
use kernel_examples.Proc.Entries.{
  Place, root, inside, same, Tree, create, remove, Grants, below, make_nodes, remove_nodes,
  sig_proc_init, sig_proc_exit, task_proc_init, task_proc_exit, my_proc_init, my_proc_exit,
  sysfs_init, sysfs_exit,
}

same→eq : (p q : Place) → same p q ≡ true → p ≡ q
same→eq (root n) (root m) e = ap root (==→eq n m e)
same→eq (root n) (inside m) e = cc
same→eq (inside n) (root m) e = cc
same→eq (inside n) (inside m) e = ap inside (==→eq n m e)

remove-entries :
    (p q : Place) (t : Tree) → (remove p t).entries q ≡ (if same p q then false else t.entries q)
unfolding remove
remove-entries p q t = elim (Bool-cases (t.entries p)) [
  | inl there ↦ rw there refl
  | inr absent ↦ elim (Bool-cases (same p q)) [
    | inl equal ↦ rw (absent, equal) (ap t.entries (sym (same→eq p q equal)) ∙ absent)
    | inr other ↦ rw (absent, other) refl
  ]
]

-- A tree in which none of the names that a module uses stands; any others may.
pub record IsFresh (t : Tree) : Type 0 where
  pub directory : t.entries (root 0) ≡ false
  pub root_1 : t.entries (root 1) ≡ false
  pub root_2 : t.entries (root 2) ≡ false
  pub inside_1 : t.entries (inside 1) ≡ false
  pub inside_2 : t.entries (inside 2) ≡ false

abbrev refused : Bool → ℕ
refused granted = if granted then 0 else 1

-- How unloading ends: the same entries, and a warning for each that was refused.
abbrev pub Restores : ℕ → Tree → Tree → Type 0
Restores missing t u =
    ((q : Place) → u.entries q ≡ t.entries q) × (u.warnings ≡ t.warnings + missing)

absent : (t : Tree) (p q : Place) → t.entries p ≡ false → same p q ≡ true → t.entries q ≡ false
absent t p q e equal = ap t.entries (sym (same→eq p q equal)) ∙ e

-- Three names that are absent before are absent afterwards, and every other is as it was.
restored :
    (t : Tree) (d n m : Place) (g h k : Bool) (q : Place)
    → t.entries d ≡ false
    → t.entries n ≡ false
    → t.entries m ≡ false
    → (remove d (remove m (remove n (create h m (create k n (create g d t)))))).entries q
      ≡ t.entries q
unfolding create
restored t d n m g h k q no_d no_n no_m =
    let before = create h m (create k n (create g d t)) in
    remove-entries d q (remove m (remove n before))
    ∙ ap (λ b. if same d q then false else b) (remove-entries m q (remove n before))
    ∙ ap (λ b. if same d q then false else if same m q then false else b)
        (remove-entries n q before)
    ∙ untouched (same d q) (same m q) (same n q) g h k (t.entries q) (absent t d q no_d)
        (absent t m q no_m) (absent t n q no_n)
  where
    untouched :
        (d m n g h k b : Bool)
        → (d ≡ true → b ≡ false)
        → (m ≡ true → b ≡ false)
        → (n ≡ true → b ≡ false)
        → (if d
            then false
            else if m
            then false
            else if n
            then false
            else if m
            then h || (if n then k || (if d then g || b else b) else (if d then g || b else b))
            else if n
            then k || (if d then g || b else b)
            else (if d then g || b else b))
          ≡ b
    untouched true m n g h k b no_d no_m no_n = sym (no_d refl)
    untouched false true n g h k b no_d no_m no_n = sym (no_m refl)
    untouched false false true g h k b no_d no_m no_n = sym (no_n refl)
    untouched false false false g h k b no_d no_m no_n = refl

warned :
    (d k h : Bool) (t : Tree)
    → IsFresh t
    → (remove_nodes
        (record { dir = d; node_1 = k; node_2 = h })
        (make_nodes (record { dir = d; node_1 = k; node_2 = h }) t).1).warnings
      ≡ t.warnings + (refused d + refused k + refused h)
unfolding remove_nodes make_nodes create remove
warned true true true t f = omega arith
warned true true false t f = rw f.inside_2 (omega arith)
warned true false true t f = rw f.inside_1 (omega arith)
warned true false false t f = rw (f.inside_1, f.inside_2) (omega arith)
warned false true true t f = rw f.directory (omega arith)
warned false true false t f = rw (f.root_2, f.directory) (omega arith)
warned false false true t f = rw (f.root_1, f.directory) (omega arith)
warned false false false t f = rw (f.root_1, f.root_2, f.directory) (omega arith)

fresh_1 : (t : Tree) → IsFresh t → (dir : Bool) → t.entries (below dir 1) ≡ false
fresh_1 t f true = f.inside_1
fresh_1 t f false = f.root_1

fresh_2 : (t : Tree) → IsFresh t → (dir : Bool) → t.entries (below dir 2) ≡ false
fresh_2 t f true = f.inside_2
fresh_2 t f false = f.root_2

nodes :
    (g : Grants) (t : Tree)
    → IsFresh t
    → Restores
        (refused g.dir + refused g.node_1 + refused g.node_2)
        t
        (remove_nodes g (make_nodes g t).1)
unfolding make_nodes remove_nodes
nodes g t f = (
  λ q.
      restored t (root 0) (below g.dir 1) (below g.dir 2) g.dir g.node_2 g.node_1 q f.directory
        (fresh_1 t f g.dir) (fresh_2 t f g.dir),
  warned g.dir g.node_1 g.node_2 t f,
)

my_proc :
    (granted : Bool) (t : Tree)
    → IsFresh t
    → Restores 0 t (my_proc_exit granted (my_proc_init granted t).1)
unfolding my_proc_init my_proc_exit create remove
my_proc true t f = (
  λ q.
      remove-entries (root 1) q (create true (root 1) t)
      ∙ made (same (root 1) q) (t.entries q) (absent t (root 1) q f.root_1),
  omega arith,
)
  where
    made : (s b : Bool) → (s ≡ true → b ≡ false) → (if s then false else if s then true else b) ≡ b
    made true b e = sym (e refl)
    made false b e = refl
my_proc false t f = (λ q. refl, omega arith)

-- None of the names that the modules use is there before; others may be. Loading my_new_proc.c,
-- sig_proc.c or task_proc.c succeeds whatever was granted. Unloading takes the same entries away again,
-- also those that went to /proc itself since the directory was refused, leaves every other as it was,
-- and warns of each that was refused; my_proc.c warns of none. my_sysfs.c gives its directory back when
-- it is unloaded, but keeps it where its file was refused and loading fails.
pub exit-Restores :
    (g : Grants) (granted : Bool) (t : Tree) (e : ℕ) (l : Ledger)
    → IsFresh t
    → let missing = refused g.dir + refused g.node_1 + refused g.node_2 in
      ((make_nodes g t).0 ≡ pos 0)
      × Restores missing t (remove_nodes g (make_nodes g t).1)
      × ((sig_proc_init g t).0 ≡ pos 0)
      × ((task_proc_init g t).0 ≡ pos 0)
      × Restores missing t (sig_proc_exit g (sig_proc_init g t).1)
      × Restores missing t (task_proc_exit g (task_proc_init g t).1)
      × Restores 0 t (my_proc_exit granted (my_proc_init granted t).1)
      × (sysfs_exit (sysfs_init true (pos 0) l).1 ≡ some l)
      × (sysfs_init true (negsuc e) l ≡ (negsuc e, acquire kobject l))
unfolding make_nodes sysfs_init sysfs_exit
exit-Restores g granted t e l f = (
  refl,
  nodes g t f,
  refl,
  refl,
  nodes g t f,
  nodes g t f,
  my_proc granted t f,
  release-acquire kobject l,
  refl,
)
