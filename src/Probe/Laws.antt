-- ===== src/Probe/Laws.antt =====
-- kprobes and debug: when a probe is registered, and what the one of kprobe_zap.c does.
use kernel_examples.Prelude.{
  ℕ, zero, suc, ◌≡◌, ◌≢◌, refl, ap, ◌∙◌, ◌↔◌, arith, Bool, true, false, Option, none, some, List,
  [], ◌∷◌, length, ◌==◌, ==→eq, eq→==, ne→==, ◌&&◌, Bool-cases, inl, inr, if◌then◌else◌,
}
use kernel_examples.Prelude.Int.{ℤ, pos, negsuc}
use kernel_examples.Kernel.{Ledger, kprobe, jprobe, fail, release-acquire}
use kernel_examples.Probe.{
  Module, registered, test_init, zap_init, kprobe_exit, handler_pre, jprobe_test_init,
  zap_jprobe_init, jprobe_exit,
}

-- What the parameters ask for: the name goes before the address.
abbrev pub target : (List ℕ → ℕ) → Module → ℕ
target kallsyms m = elim m.name [ none ↦ m.address | some name ↦ kallsyms name ]

-- How loading ends with this target and this answer, and then unloading.
abbrev pub ProbeEnds : ℕ → ℤ → Module → ℤ × Module → Type 0
ProbeEnds zero ret m r = (r.0 ≡ fail 1) × (r.1.held ≡ m.held)
ProbeEnds (suc n) (pos zero) m r =
    (r.0 ≡ pos 0) × (r.1.addr ≡ suc n) × (kprobe_exit r.1 ≡ some m.held)
ProbeEnds (suc n) _ m r = (r.0 ≡ fail 1) × (r.1.held ≡ m.held)

suc-ne-zero : (n : ℕ) → suc n ≢ 0
suc-ne-zero n e = omega arith

-- Both functions are a guard that asks for no target, the lookup, and the registration.
ends :
    (guard : Bool) (t : ℕ) (ret : ℤ) (m found set : Module)
    → (guard ≡ true → t ≡ 0)
    → found.held ≡ m.held
    → set.held ≡ m.held
    → set.addr ≡ t
    → ProbeEnds t ret m
        (if guard then (fail 1, m) else if t == 0 then (fail 1, found) else registered ret set)
unfolding kprobe_exit
ends true zero ret m found set g f h a = (refl, refl)
ends true (suc t) ret m found set g f h a = absurd (suc-ne-zero t (g refl))
ends false zero ret m found set g f h a = (refl, f)
ends false (suc t) (pos zero) m found set g f h a =
    rw (ne→== (suc t) 0 (suc-ne-zero t)) (refl, a, release-acquire (kprobe 0) set.held ∙ ap some h)
ends false (suc t) (pos (suc n)) m found set g f h a =
    rw (ne→== (suc t) 0 (suc-ne-zero t)) (refl, h)
ends false (suc t) (negsuc n) m found set g f h a = rw (ne→== (suc t) 0 (suc-ne-zero t)) (refl, h)

no_name : (a n : ℕ) → ((a == 0) && (suc n == 0)) ≡ true → ⊥
no_name a n h = ground arith

unnamed : (a : ℕ) → ((a == 0) && true) ≡ true → a ≡ 0
unnamed a h = ground arith

named :
    (kallsyms : List ℕ → ℕ) (a : ℕ) (name : List ℕ)
    → kallsyms [] ≡ 0
    → ((a == 0) && (length name == 0)) ≡ true
    → kallsyms name ≡ 0
named kallsyms a [] e h = e
named kallsyms a (c ∷ name) e h = absurd (no_name a (length name) h)

-- How loading a jprobe ends on this answer, with this code for an error, and then unloading.
abbrev pub JprobeEnds : ℤ → ℤ → Ledger → ℤ × Ledger → Type 0
JprobeEnds (negsuc e) code l r = r ≡ (code, l)
JprobeEnds (pos n) code l r = (r.0 ≡ pos 0) × (jprobe_exit r.1 ≡ some l)

jprobe_test_lem : (ret : ℤ) (l : Ledger) → JprobeEnds ret (fail 1) l (jprobe_test_init ret l)
unfolding jprobe_test_init jprobe_exit
jprobe_test_lem (negsuc e) l = refl
jprobe_test_lem (pos n) l = (refl, release-acquire (jprobe 0) l)

zap_jprobe_lem : (ret : ℤ) (l : Ledger) → JprobeEnds ret ret l (zap_jprobe_init ret l)
unfolding zap_jprobe_init jprobe_exit
zap_jprobe_lem (negsuc e) l = refl
zap_jprobe_lem (pos n) l = (refl, release-acquire (jprobe 0) l)

module _ (kallsyms : List ℕ → ℕ) where
  test_ends :
      (name : Option (List ℕ)) (ret : ℤ) (m : Module)
      → kallsyms [] ≡ 0
      → ProbeEnds
          (target kallsyms (record m { name = name }))
          ret
          (record m { name = name })
          (test_init kallsyms ret (record m { name = name }))
  unfolding test_init
  test_ends none ret m e = ends _ _ ret _ _ _ (unnamed m.address) refl refl refl
  test_ends (some name) ret m e =
      ends _ _ ret _ _ _ (named kallsyms m.address name e) refl refl refl

  zap_ends :
      (name : Option (List ℕ)) (ret : ℤ) (m : Module)
      → kallsyms [] ≡ 0
      → ProbeEnds
          (target kallsyms (record m { name = name }))
          ret
          (record m { name = name })
          (zap_init kallsyms ret (record m { name = name }))
  unfolding zap_init
  zap_ends none ret m e = ends _ _ ret _ _ _ (unnamed m.address) refl refl refl
  zap_ends (some name) ret m e = ends _ _ ret _ _ _ (named kallsyms m.address name e) refl refl refl

  -- kprobe_test.c and kprobe_zap.c, with a kernel that finds nothing under the empty name: the name
  -- goes before the address, so that an empty or unknown name makes loading fail whatever the address
  -- is. Loading returns 0 and holds a probe at the target exactly where there is a target and
  -- register_kprobe answers 0; unloading then gives it back. Otherwise loading returns -1 and holds no
  -- probe. jprobe_test.c and zap_jprobe.c hold a probe where register_jprobe does not answer an error,
  -- and give it back; on an error they hold none, and loading returns -1, or the error.
  pub init-ProbeEnds :
      (ret : ℤ) (m : Module)
      → kallsyms [] ≡ 0
      → ProbeEnds (target kallsyms m) ret m (test_init kallsyms ret m)
        × ProbeEnds (target kallsyms m) ret m (zap_init kallsyms ret m)
        × JprobeEnds ret (fail 1) m.held (jprobe_test_init ret m.held)
        × JprobeEnds ret ret m.held (zap_jprobe_init ret m.held)
  init-ProbeEnds ret m e = (
    test_ends m.name ret m e,
    zap_ends m.name ret m e,
    jprobe_test_lem ret m.held,
    zap_jprobe_lem ret m.held,
  )

never :
    (mypid current : ℕ) (fuel : ℕ)
    → (current == mypid) ≡ true
    → handler_pre fuel mypid current ≡ none
unfolding handler_pre
never mypid current zero e = refl
never mypid current (suc fuel) e = rw e (never mypid current fuel e)

at_once :
    (mypid current fuel : ℕ)
    → (current == mypid) ≡ false
    → handler_pre (suc fuel) mypid current ≡ some (pos 0)
unfolding handler_pre
at_once mypid current fuel e = rw e refl

none-ne-some : (x : Option ℤ) (z : ℤ) → x ≡ none → x ≡ some z → ⊥
none-ne-some x z e f = cc

-- The probe of kprobe_zap.c stops exactly the process that it was loaded for: the handler never
-- returns to it, and returns 0 to any other at once.
handler_pre_iff :
    (mypid current : ℕ)
    → (((fuel : ℕ) → handler_pre fuel mypid current ≡ none) ↔ (current ≡ mypid))
      × (current ≢ mypid → (fuel : ℕ) → handler_pre (suc fuel) mypid current ≡ some (pos 0))
handler_pre_iff mypid current = elim (Bool-cases (current == mypid)) [
  | inl same ↦ (
    (λ h. ==→eq current mypid same, λ e fuel. never mypid current fuel same),
    λ h. absurd (h (==→eq current mypid same)),
  )
  | inr other ↦ (
    (
      λ h. absurd (none-ne-some _ (pos 0) (h 1) (at_once mypid current 0 other)),
      λ e fuel. never mypid current fuel (eq→== current mypid e),
    ),
    λ h fuel. at_once mypid current fuel other,
  )
]
