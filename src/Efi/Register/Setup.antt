-- ===== src/Efi/Register/Setup.antt =====
-- kprobes/efi_reboot_monitor.c: loading and unloading with both lists.
use kernel_examples.Prelude.{
  ℕ, zero, suc, ◌≤◌, ◌<◌, ◌≡◌, ◌⊎◌, inl, inr, refl, ap, ◌∙◌, arith, Bool, true, false, Option, none,
  some, lt→ltb,
}
use kernel_examples.Kernel.{jprobe, kprobe, acquire_all}
use kernel_examples.Efi.Register.{
  Probes, jps, kps, is_set, register_jprobe_list, unregister_jprobe_list, register_kprobe_list,
  unregister_kprobe_list, after_jprobes, my_init, my_exit,
}
use kernel_examples.Efi.Register.Laws.{RegisterEnds, Keeps, register_ends, unregister_lem}

-- The first 11 places of jps are set, and no others.
jps_front : (i : ℕ) → i < 11 → is_set jps i ≡ true
jps_front zero h = refl
jps_front (suc zero) h = refl
jps_front (suc (suc zero)) h = refl
jps_front (suc (suc (suc zero))) h = refl
jps_front (suc (suc (suc (suc zero)))) h = refl
jps_front (suc (suc (suc (suc (suc zero))))) h = refl
jps_front (suc (suc (suc (suc (suc (suc zero)))))) h = refl
jps_front (suc (suc (suc (suc (suc (suc (suc zero))))))) h = refl
jps_front (suc (suc (suc (suc (suc (suc (suc (suc zero)))))))) h = refl
jps_front (suc (suc (suc (suc (suc (suc (suc (suc (suc zero))))))))) h = refl
jps_front (suc (suc (suc (suc (suc (suc (suc (suc (suc (suc zero)))))))))) h = refl
jps_front (suc (suc (suc (suc (suc (suc (suc (suc (suc (suc (suc i))))))))))) h =
    absurd (omega arith)

jps_behind : (i : ℕ) → 11 ≤ i → is_set jps i ≡ false
jps_behind zero h = absurd (omega arith)
jps_behind (suc zero) h = absurd (omega arith)
jps_behind (suc (suc zero)) h = absurd (omega arith)
jps_behind (suc (suc (suc zero))) h = absurd (omega arith)
jps_behind (suc (suc (suc (suc zero)))) h = absurd (omega arith)
jps_behind (suc (suc (suc (suc (suc zero))))) h = absurd (omega arith)
jps_behind (suc (suc (suc (suc (suc (suc zero)))))) h = absurd (omega arith)
jps_behind (suc (suc (suc (suc (suc (suc (suc zero))))))) h = absurd (omega arith)
jps_behind (suc (suc (suc (suc (suc (suc (suc (suc zero)))))))) h = absurd (omega arith)
jps_behind (suc (suc (suc (suc (suc (suc (suc (suc (suc zero))))))))) h = absurd (omega arith)
jps_behind (suc (suc (suc (suc (suc (suc (suc (suc (suc (suc zero)))))))))) h = absurd (omega arith)
jps_behind (suc (suc (suc (suc (suc (suc (suc (suc (suc (suc (suc zero))))))))))) h = refl
jps_behind (suc (suc (suc (suc (suc (suc (suc (suc (suc (suc (suc (suc i)))))))))))) h = refl

-- The first 3 places of kps are set, and no others.
kps_front : (i : ℕ) → i < 3 → is_set kps i ≡ true
kps_front zero h = refl
kps_front (suc zero) h = refl
kps_front (suc (suc zero)) h = refl
kps_front (suc (suc (suc i))) h = absurd (omega arith)

kps_behind : (i : ℕ) → 3 ≤ i → is_set kps i ≡ false
kps_behind zero h = absurd (omega arith)
kps_behind (suc zero) h = absurd (omega arith)
kps_behind (suc (suc zero)) h = absurd (omega arith)
kps_behind (suc (suc (suc i))) h = refl

-- What is true after my_init with a status: loaded, so that unloading gives back what was held
-- before; or refused, with that held again.
abbrev pub InitEnds : (ℕ → Bool) → (ℕ → Bool) → Probes → Option (ℕ × Probes) → Type 0
InitEnds jok kok s none = ⊥
InitEnds jok kok s (some (zero, s')) =
    (my_exit s' ≡ some (record s' { held = s.held }))
    × (s'.held ≡ acquire_all kprobe 3 0 (acquire_all jprobe 11 0 s.held))
    × ((i : ℕ) → i < 11 → jok i ≡ true)
    × ((i : ℕ) → i < 3 → kok i ≡ true)
InitEnds jok kok s (some (suc n, s')) =
    (s'.held ≡ s.held)
    × (n ≡ 0)
    × (((i : ℕ) × (i < 11) × (jok i ≡ false)) ⊎ ((i : ℕ) × (i < 3) × (kok i ≡ false)))

abbrev JprobesEnd : (ℕ → Bool) → Probes → Option (ℕ × Probes) → Type 0
JprobesEnd jok s = RegisterEnds jps jprobe 11 jps_front jps_behind jok s.held s

abbrev KprobesEnd : (ℕ → Bool) → Probes → Option (ℕ × Probes) → Type 0
KprobesEnd kok s = RegisterEnds kps kprobe 3 kps_front kps_behind kok s.held s

jprobes_end : (jok : ℕ → Bool) (s : Probes) → JprobesEnd jok s (register_jprobe_list jok s)
unfolding register_jprobe_list
jprobes_end jok s = register_ends jps jprobe 11 jps_front jps_behind jok 12 s (omega arith)

kprobes_end : (kok : ℕ → Bool) (s : Probes) → KprobesEnd kok s (register_kprobe_list kok s)
unfolding register_kprobe_list
kprobes_end kok s = register_ends kps kprobe 3 kps_front kps_behind kok 3 s (omega arith)

module _ (jok kok : ℕ → Bool) (s : Probes) where
  -- The jprobes are registered.
  abbrev Jprobes : Probes → Type 0
  Jprobes s' =
      (s'.held ≡ acquire_all jprobe 11 0 s.held)
      × ((j : ℕ) → j < 11 → s'.addr (jprobe j) ≡ true)
      × ((j : ℕ) → j < 11 → jok j ≡ true)

  remove_jprobes :
      (s' : Probes)
      → s'.held ≡ acquire_all jprobe 11 0 s.held
      → ((j : ℕ) → j < 11 → s'.addr (jprobe j) ≡ true)
      → unregister_jprobe_list s' ≡ some (record s' { held = s.held })
  unfolding unregister_jprobe_list
  remove_jprobes s' e addrs =
      unregister_lem jps jprobe 11 jps_front jps_behind 12 s.held s' (omega arith) e addrs

  remove_all :
      (s' s'' : Probes)
      → Jprobes s'
      → s''.held ≡ acquire_all kprobe 3 0 s'.held
      → ((j : ℕ) → j < 3 → s''.addr (kprobe j) ≡ true)
      → Keeps s' s''
      → my_exit s'' ≡ some (record s'' { held = s.held })
  unfolding my_exit unregister_kprobe_list
  remove_all s' s'' j e addrs keeps =
      rw (unregister_lem kps kprobe 3 kps_front kps_behind 3 s'.held s'' (omega arith) e addrs)
        (remove_jprobes (record s'' { held = s'.held }) j.0 (λ i lt. keeps (jprobe i) (j.1 i lt)))

  kprobes_then :
      (s' : Probes) (o : Option (ℕ × Probes))
      → register_kprobe_list kok s' ≡ o
      → KprobesEnd kok s' o
      → Jprobes s'
      → InitEnds jok kok s (after_jprobes kok s')
  unfolding after_jprobes
  kprobes_then s' none e k j = absurd k
  kprobes_then s' (some (zero, s'')) e k j =
      rw e (remove_all s' s'' j k.0 k.1 k.2, k.0 ∙ ap (acquire_all kprobe 3 0) j.0, j.2, k.3)
  kprobes_then s' (some (suc n, s'')) e k j =
      rw
        (
          e,
          lt→ltb 0 (suc n) (omega arith),
          remove_jprobes s'' (k.0 ∙ j.0) (λ i lt. k.2 (jprobe i) (j.1 i lt)),
        )
        (refl, k.1, inr k.3)

  jprobes_then :
      (o : Option (ℕ × Probes))
      → register_jprobe_list jok s ≡ o
      → JprobesEnd jok s o
      → InitEnds jok kok s (my_init jok kok s)
  unfolding my_init
  jprobes_then none e j = absurd j
  jprobes_then (some (zero, s')) e j =
      rw e (kprobes_then s' (register_kprobe_list kok s') refl (kprobes_end kok s') (j.0, j.1, j.3))
  jprobes_then (some (suc n, s')) e j = rw (e, lt→ltb 0 (suc n) (omega arith)) (j.0, j.1, inl j.3)

  -- Whatever the kernel accepts, my_init returns 0 or 1 and touches no probe that is null or not
  -- registered. It returns 0 exactly when every probe was accepted; then the eleven jprobes and the
  -- three kprobes are registered once each, beside what was before, and my_exit removes them all and
  -- leaves that. Where it returns 1 nothing but what was registered before is.
  pub my_init_ends : InitEnds jok kok s (my_init jok kok s)
  my_init_ends = jprobes_then (register_jprobe_list jok s) refl (jprobes_end jok s)
