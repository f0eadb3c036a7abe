-- ===== src/Efi/Register/Laws.antt =====
-- kprobes/efi_reboot_monitor.c: one list of probes, registered and removed as a whole.
use kernel_examples.Prelude.{
  ℕ, zero, suc, ◌+◌, ◌≤◌, ◌<◌, ◌≡◌, inl, inr, refl, sym, ap, ◌∙◌, arith, Bool, true, false, Option,
  none, some, List, ◌||◌, eq→==, Bool-cases, ltb, ltb→lt, ltb→le, subst,
}
use kernel_examples.Kernel.{
  Object, Ledger, id, acquire, acquire_all, acquire_all_top, acquire_all_first, acquire_all_none,
  release-acquire,
}
use kernel_examples.Efi.Register.{
  Probe, Probes, is_set, registered, roll_back, register_from, unregister_from,
}

or_true : (b : Bool) → (b || true) ≡ true
or_true true = refl
or_true false = refl

-- What has an address keeps it.
abbrev pub Keeps : Probes → Probes → Type 0
Keeps s s' = (p : Object) → s.addr p ≡ true → s'.addr p ≡ true

registered-Keeps : (o : Object) (s : Probes) → Keeps s (registered o s)
registered-Keeps o s p h = rw h

registered_has : (o : Object) (s : Probes) → (registered o s).addr o ≡ true
registered_has o s = rw (eq→== (id o) (id o) refl) (or_true (s.addr o))

-- A list whose first `m` places are set and no others.
module _ (probes : List (Option Probe)) (family : ℕ → Object) (m : ℕ)
    (front : (i : ℕ) → i < m → is_set probes i ≡ true)
    (behind : (i : ℕ) → m ≤ i → is_set probes i ≡ false) where
  roll_back_lem :
      (i : ℕ) (l : Ledger) (s : Probes)
      → i ≤ m
      → s.held ≡ acquire_all family i 0 l
      → roll_back probes family i s ≡ some (record s { held = l })
  unfolding roll_back
  roll_back_lem zero l s h e =
      ap (λ (k : Ledger). some (record s { held = k })) (e ∙ acquire_all_none family 0 l)
  roll_back_lem (suc j) l s h e =
      rw
        (
          front j h,
          e,
          acquire_all_top family j l,
          release-acquire (family j) (acquire_all family j 0 l),
        )
        (roll_back_lem j l (record s { held = acquire_all family j 0 l }) (omega arith) refl)

  register_behind :
      (ok : ℕ → Bool) (rounds i : ℕ) (s : Probes)
      → m ≤ i
      → register_from probes family ok rounds i s ≡ some (0, s)
  unfolding register_from
  register_behind ok zero i s h = refl
  register_behind ok (suc rounds) i s h =
      rw (behind i h, register_from) (register_behind ok rounds (i + 1) s (omega arith))

  -- How a registration of the list ends, from `l`: with all of it, or with none of it.
  abbrev pub RegisterEnds : (ℕ → Bool) → Ledger → Probes → Option (ℕ × Probes) → Type 0
  RegisterEnds ok l s none = ⊥
  RegisterEnds ok l s (some (zero, s')) =
      (s'.held ≡ acquire_all family m 0 l)
      × ((j : ℕ) → j < m → s'.addr (family j) ≡ true)
      × Keeps s s'
      × ((j : ℕ) → j < m → ok j ≡ true)
  RegisterEnds ok l s (some (suc n, s')) =
      (s'.held ≡ l) × (n ≡ 0) × Keeps s s' × ((j : ℕ) × (j < m) × (ok j ≡ false))

  -- The registration so far: the first `i` are registered, and had been accepted.
  record Front (ok : ℕ → Bool) (l : Ledger) (s₀ s : Probes) (i : ℕ) : Type 0 where
    below : i ≤ m
    taken : s.held ≡ acquire_all family i 0 l
    addrs : (j : ℕ) → j < i → s.addr (family j) ≡ true
    oks : (j : ℕ) → j < i → ok j ≡ true
    keeps : Keeps s₀ s

  all_done :
      (ok : ℕ → Bool) (i : ℕ) (l : Ledger) (s₀ s : Probes)
      → Front ok l s₀ s i
      → m ≤ i
      → RegisterEnds ok l s₀ (some (0, s))
  all_done ok i l s₀ s f h = (
    f.taken ∙ ap (λ n. acquire_all family n 0 l) (omega (arith, f.below)),
    λ j lt. f.addrs j (omega arith),
    f.keeps,
    λ j lt. f.oks j (omega arith),
  )

  one_more :
      (ok : ℕ → Bool) (i : ℕ) (l : Ledger) (s₀ s : Probes)
      → Front ok l s₀ s i
      → i < m
      → ok i ≡ true
      → Front ok l s₀ (registered (family i) s) (i + 1)
  one_more ok i l s₀ s f h accepted = record {
    below = omega arith;
    taken =
        ap (acquire (family i)) f.taken
        ∙ sym (acquire_all_top family i l)
        ∙ ap (λ n. acquire_all family n 0 l) (omega arith);
    addrs = λ j lt. elim (Bool-cases (ltb j i)) [
      | inl earlier ↦ registered-Keeps (family i) s (family j) (f.addrs j (ltb→lt _ _ earlier))
      | inr this ↦
          subst (λ k. (registered (family i) s).addr (family k) ≡ true)
            (omega (arith, ltb→le _ _ this)) (registered_has (family i) s)
    ];
    oks = λ j lt. elim (Bool-cases (ltb j i)) [
      | inl earlier ↦ f.oks j (ltb→lt _ _ earlier)
      | inr this ↦ subst (λ k. ok k ≡ true) (omega (arith, ltb→le _ _ this)) accepted
    ];
    keeps = λ p h. registered-Keeps (family i) s p (f.keeps p h);
  }

  register_from_ends :
      (ok : ℕ → Bool) (rounds i : ℕ) (l : Ledger) (s₀ s : Probes)
      → Front ok l s₀ s i
      → m ≤ i + rounds
      → RegisterEnds ok l s₀ (register_from probes family ok rounds i s)
  unfolding register_from
  register_from_ends ok zero i l s₀ s f k = all_done ok i l s₀ s f (omega arith)
  register_from_ends ok (suc rounds) i l s₀ s f k = elim (Bool-cases (ltb i m)) [
    | inr last ↦
        rw (behind i (ltb→le _ _ last), register_from)
          (rw (register_behind ok rounds (i + 1) s (omega (arith, ltb→le _ _ last)))
            (all_done ok i l s₀ s f (ltb→le _ _ last)))
    | inl more ↦ elim (Bool-cases (ok i)) [
      | inl accepted ↦
          rw (front i (ltb→lt _ _ more), accepted, register_from)
            (register_from_ends ok rounds (i + 1) l s₀ (registered (family i) s)
              (one_more ok i l s₀ s f (ltb→lt _ _ more) accepted) (omega arith))
      | inr refused ↦
          rw (front i (ltb→lt _ _ more), refused, register_from)
            (rw (roll_back_lem i l s f.below f.taken)
              (refl, refl, f.keeps, (i, ltb→lt _ _ more, refused)))
    ]
  ]

  -- Registering the list from the start.
  pub register_ends :
      (ok : ℕ → Bool) (rounds : ℕ) (s : Probes)
      → m ≤ rounds
      → RegisterEnds ok s.held s (register_from probes family ok rounds 0 s)
  register_ends ok rounds s h = register_from_ends ok rounds 0 s.held s s start (omega arith)
    where
      start : Front ok s.held s s 0
      start = record {
        below = omega arith;
        taken = sym (acquire_all_none family 0 s.held);
        addrs = λ j lt. absurd (omega arith);
        oks = λ j lt. absurd (omega arith);
        keeps = λ p h. h;
      }

  unregister_behind :
      (rounds i : ℕ) (s : Probes) → m ≤ i → unregister_from probes family rounds i s ≡ some s
  unfolding unregister_from
  unregister_behind zero i s h = refl
  unregister_behind (suc rounds) i s h =
      rw (behind i h, unregister_from) (unregister_behind rounds (i + 1) s (omega arith))

  unregister_from_lem :
      (rounds k i : ℕ) (l : Ledger) (s : Probes)
      → i + k ≡ m
      → k ≤ rounds
      → s.held ≡ acquire_all family k i l
      → ((j : ℕ) → j < m → s.addr (family j) ≡ true)
      → unregister_from probes family rounds i s ≡ some (record s { held = l })
  unfolding unregister_from
  unregister_from_lem rounds zero i l s e h held addrs =
      unregister_behind rounds i s (omega arith)
      ∙ ap (λ (k : Ledger). some (record s { held = k })) (held ∙ acquire_all_none family i l)
  unregister_from_lem zero (suc k) i l s e h held addrs = absurd (omega arith)
  unregister_from_lem (suc rounds) (suc k) i l s e h held addrs =
      rw
        (
          front i (omega arith),
          addrs i (omega arith),
          held,
          acquire_all_first family k i l,
          release-acquire (family i) (acquire_all family k (i + 1) l),
          unregister_from,
        )
        (unregister_from_lem rounds k (i + 1) l (record s { held = acquire_all family k (i + 1) l })
          (omega arith) (omega arith) refl addrs)

  -- Removing the list once it is registered.
  pub unregister_lem :
      (rounds : ℕ) (l : Ledger) (s : Probes)
      → m ≤ rounds
      → s.held ≡ acquire_all family m 0 l
      → ((j : ℕ) → j < m → s.addr (family j) ≡ true)
      → unregister_from probes family rounds 0 s ≡ some (record s { held = l })
  unregister_lem rounds l s h held addrs =
      unregister_from_lem rounds m 0 l s (omega arith) h held addrs
