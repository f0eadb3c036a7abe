-- ===== src/Hook/Laws.antt =====
-- syscalls/mysyscalls.c: the hook comes and goes, and what it prints of a name.
use Prim.Native.Nat.{bit_and}
use mathlib.Core.Path.{fun_ext}
use kernel_examples.Prelude.{
  c_string, c_string-ended, IsNonzero, ℕ, zero, suc, ◌-◌, ◌≤◌, ◌<◌, ◌≡◌, ◌≢◌, refl, sym, ap, ◌∙◌,
  arith, Bool, true, false, none, some, List, [], ◌∷◌, ◌++◌, take, replicate, length, All, ◌==◌,
  ==→eq, ne→==, ◌||◌, ltb, ltb→lt, ltb→le, lt→ltb, le→ltb, append_assoc, take-append_short,
  take-append_long, take_long, All-take, Bool-cases, inl, inr, if◌then◌else◌,
}
use kernel_examples.Prelude.Int.{ℤ, pos}
use kernel_examples.Kernel.{fail}
use kernel_examples.Hook.{
  Symbols, Machine, nr_open, set_entry, my_init, my_exit, tmpname, myopen_call,
}

set_entry-back : (p : ℕ) (table : ℕ → ℕ) → set_entry (table nr_open) (set_entry p table) ≡ table
set_entry-back p table = fun_ext λ n. elim (Bool-cases (n == nr_open)) [
  | inl open_entry ↦ rw open_entry (ap table (sym (==→eq n nr_open open_entry)))
  | inr other ↦ rw other refl
]

-- Where the symbols are found and the entry of open is no null pointer: loading returns 0, the entry
-- is then myopen and every other one is as it was; unloading gives back the table as it was found. The
-- write protection that loading took out of cr0 stays out of it.
pub my_exit-hook :
    (k : Symbols) (m : Machine)
    → k.sys_call_table ≢ 0
    → k.set_pages_rw ≢ 0
    → m.table nr_open ≢ 0
    → (hooked : Machine) × (my_init k m ≡ some (pos 0, hooked))
      × (hooked.table nr_open ≡ k.myopen)
      × ((n : ℕ) → n ≢ nr_open → hooked.table n ≡ m.table n)
      × ((my_exit hooked).table ≡ m.table)
      × ((my_exit hooked).cr0 ≡ bit_and m.cr0 0xfffe_ffff)
unfolding my_init my_exit
my_exit-hook k m a b c = (
  record {
    cr0 = bit_and m.cr0 0xfffe_ffff;
    table = set_entry k.myopen m.table;
    writable = true;
    orig_open = m.table nr_open;
  },
  rw (ne→== k.set_pages_rw 0 b, ne→== k.sys_call_table 0 a) refl,
  refl,
  λ n h. rw (ne→== n nr_open h) refl,
  rw (ne→== (m.table nr_open) 0 c) (set_entry-back k.myopen m.table),
  rw (ne→== (m.table nr_open) 0 c) refl,
)

c_string-last :
    (xs : List ℕ) (s : ℕ)
    → All IsNonzero xs
    → c_string (xs ++ (s ∷ [])) ≡ (if s == 0 then some xs else none)
unfolding c_string
c_string-last [] s h = refl
c_string-last (x ∷ xs) s h = elim (Bool-cases (s == 0)) [
  | inl ended ↦ rw (ne→== x 0 h.0, c_string-last xs s h.1, ended) refl
  | inr open_end ↦ rw (ne→== x 0 h.0, c_string-last xs s h.1, open_end) refl
]

-- Whether a zero byte ends the name inside the array.
abbrev pub is_ended : List ℕ → ℕ → ℕ → Bool
is_ended name missed stack = (ltb (length name) 255 || ltb 0 missed) || stack == 0

-- A prefix of the name that has its zero byte, and one that has not.
c_string-take_short :
    (n : ℕ) (name rest tail : List ℕ)
    → length name < n
    → All IsNonzero name
    → c_string (take n (name ++ (0 ∷ rest)) ++ tail) ≡ some (take n name)
c_string-take_short n name rest tail h k =
    let j = n - length name - 1 in
    let e : n - length name ≡ suc j = omega arith in
    ap (λ l. c_string (l ++ tail))
      (take-append_long n name (0 ∷ rest) (omega arith) ∙ ap (λ i. name ++ take i (0 ∷ rest)) e)
    ∙ ap c_string (append_assoc name (0 ∷ take j rest) tail)
    ∙ c_string-ended name (take j rest ++ tail) k
    ∙ ap some (sym (take_long n name (omega arith)))

c_string-take_long :
    (n missed : ℕ) (name rest : List ℕ) (stack : ℕ)
    → n ≤ length name
    → All IsNonzero name
    → c_string (take n (name ++ (0 ∷ rest)) ++ (replicate missed 0 ++ (stack ∷ [])))
      ≡ (if ltb 0 missed || stack == 0 then some (take n name) else none)
c_string-take_long n zero name rest stack h k =
    ap (λ l. c_string (l ++ (stack ∷ []))) (take-append_short n name (0 ∷ rest) h)
    ∙ c_string-last (take n name) stack (All-take IsNonzero n name k)
c_string-take_long n (suc missed) name rest stack h k = rw (lt→ltb 0 (suc missed) (omega arith)) (
    ap (λ l. c_string (l ++ (0 ∷ (replicate missed 0 ++ (stack ∷ [])))))
      (take-append_short n name (0 ∷ rest) h)
    ∙ c_string-ended (take n name) (replicate missed 0 ++ (stack ∷ []))
        (All-take IsNonzero n name k))

or_true : (b : Bool) → true ≡ (b || true)
or_true true = refl
or_true false = refl

one_of : (a missed : ℕ) → 255 - missed ≤ a → ltb 0 missed ≡ (ltb a 255 || ltb 0 missed)
one_of a zero h = rw (le→ltb a 255 (omega arith)) refl
one_of a (suc missed) h = rw (lt→ltb 0 (suc missed) (omega arith)) (or_true (ltb a 255))

c_string-tmpname :
    (name rest : List ℕ) (missed stack : ℕ)
    → missed ≤ 255
    → All IsNonzero name
    → c_string (tmpname (name ++ (0 ∷ rest)) missed stack)
      ≡ (if is_ended name missed stack then some (take (255 - missed) name) else none)
c_string-tmpname name rest missed stack h k = elim (Bool-cases (ltb (length name) (255 - missed))) [
  | inl short ↦
      let below = ltb→lt (length name) (255 - missed) short in
      rw (lt→ltb (length name) 255 (omega arith))
        (c_string-take_short (255 - missed) name rest (replicate missed 0 ++ (stack ∷ [])) below k)
  | inr long ↦
      let above = ltb→le (length name) (255 - missed) long in
      c_string-take_long (255 - missed) missed name rest stack above k
      ∙ ap (λ b. if b || stack == 0 then some (take (255 - missed) name) else none)
          (one_of (length name) missed above)
]

-- The name of a call, up to its zero byte, is printed as far as it was copied, and the call goes on
-- to the handler that was hooked, or fails where there is none. The name must end before its 255th
-- byte, or not be copied whole: of a longer one the print runs past the array, unless the byte that
-- stood behind it on the stack was zero.
pub myopen_call_lem :
    (call : ℕ → List ℕ → ℤ) (name rest : List ℕ) (missed stack : ℕ) (m : Machine)
    → missed ≤ 255
    → All IsNonzero name
    → myopen_call call (name ++ (0 ∷ rest)) missed stack m ≡ (
        if is_ended name missed stack
        then some (
          take (255 - missed) name,
          if m.orig_open == 0 then fail 1 else call m.orig_open (name ++ (0 ∷ rest)),
        )
        else none)
unfolding myopen_call
myopen_call_lem call name rest missed stack m h k = elim (Bool-cases (is_ended name missed stack)) [
  | inl ended ↦ rw (c_string-tmpname name rest missed stack h k, ended) refl
  | inr open_end ↦ rw (c_string-tmpname name rest missed stack h k, open_end) refl
]
