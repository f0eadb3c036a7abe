-- ===== src/Block/Setup/Resources.antt =====
-- block_dev/sbd.c: which objects sbd_init holds when it returns, and what sbd_exit gives back.
use kernel_examples.Prelude.{
  ℕ, zero, suc, ◌-◌, ◌*◌, ◌^◌, ◌<◌, ◌≡◌, ◌≢◌, ap, sym, ◌∙◌, arith, true-false, refl, Bool, true,
  false, none, some, List, if◌then◌else◌, inl, inr, Bool-cases, subst, Option-cases, ◌&&◌, not,
}
use kernel_examples.Prelude.Int.{ℤ, pos, negsuc, ltb_ℤ}
use kernel_examples.Kernel.{
  Object, Ledger, acquire, buffer, queue, blkdev, disk, u32, extend32, fail, enomem,
  release-acquire, acquire_comm, acquire_other, release_not_held,
}
use kernel_examples.Block.Setup.{
  Module, Answers, major_key, registered, unregister_blkdev, sbd_init, sbd_exit,
}

-- The size that is asked of vmalloc.
abbrev pub wanted : Module → ℕ
wanted m = extend32 (u32 (m.nsectors * m.logical_block_size))

-- Whether the kernel grants everything.
abbrev pub grants : Answers → Module → Bool
grants k m = elim (k.vmalloc (wanted m)) [
  | none ↦ false
  | some _ ↦
      k.blk_init_queue && (not (ltb_ℤ (k.register_blkdev m.major_num) (pos 0)) && k.alloc_disk)
]

-- What stays registered when the number is given back that register_blkdev answered: one that was
-- asked for, since the answer is then 0.
abbrev pub kept : ℤ → Ledger → Ledger
kept (pos zero) l = l
kept (pos (suc n)) l = acquire (blkdev (suc n)) l
kept (negsuc n) l = acquire (blkdev (major_key (negsuc n))) l

abbrev IsInt : ℤ → Type 0
IsInt (pos n) = n < 2 ^ 31
IsInt (negsuc n) = n < 2 ^ 31

-- What register_blkdev is relied on for: nothing stands under the number 0, and for a number that was
-- asked for the answer is 0 or an error. The parameter is an int.
pub record IsRegistry (k : Answers) (m : Module) : Type 0 where
  pub int : IsInt m.major_num
  pub none_at_zero : m.held (blkdev 0) ≡ 0
  pub answers_zero :
      m.major_num ≢ pos 0
      → ltb_ℤ (k.register_blkdev m.major_num) (pos 0) ≡ false
      → k.register_blkdev m.major_num ≡ pos 0

-- What a failed load leaves behind: the queue, once there is one, and the number that is kept, once
-- it is registered.
abbrev pub left_behind : Answers → Module → Ledger
left_behind k m = elim (k.vmalloc (wanted m)) [
  | none ↦ m.held
  | some _ ↦
      if k.blk_init_queue
      then acquire queue (
          if ltb_ℤ (k.register_blkdev m.major_num) (pos 0) then m.held else kept m.major_num m.held)
      else m.held
]

-- What is held after a load that succeeded.
abbrev pub loaded_held : Answers → Module → Ledger
loaded_held k m = acquire disk (
    acquire (blkdev (registered m.major_num (k.register_blkdev m.major_num)))
      (acquire queue (acquire buffer m.held)))

abbrev pub Loads : Answers → Module → Type 0
Loads k m =
    (m' : Module) × (sbd_init k m ≡ some (pos 0, m'))
    × (m'.held ≡ loaded_held k m)
    × (m'.major_num ≡ k.register_blkdev m.major_num)
    × (m'.gd_major ≡ k.register_blkdev m.major_num)
    × (m'.capacity ≡ extend32 m.nsectors)
    × (m'.device.size ≡ wanted m)
    × (k.vmalloc (wanted m) ≡ some m'.device.bytes)

abbrev pub Succeeds : Answers → Module → Type 0
Succeeds k m =
    (m' : Module) × (sbd_init k m ≡ some (pos 0, m'))
    × (sbd_exit m' ≡ some (kept m.major_num m.held))
    × (m'.gd_major ≡ k.register_blkdev m.major_num)
    × (m'.capacity ≡ extend32 m.nsectors)
    × (m'.device.size ≡ wanted m)
    × (k.vmalloc (wanted m) ≡ some m'.device.bytes)

abbrev pub Fails : Answers → Module → Type 0
Fails k m = (m' : Module) × (sbd_init k m ≡ some (fail enomem, m')) × (m'.held ≡ left_behind k m)

kept-acquire :
    (major : ℤ) (o : Object) (l : Ledger) → kept major (acquire o l) ≡ acquire o (kept major l)
kept-acquire (pos zero) o l = refl
kept-acquire (pos (suc n)) o l = acquire_comm (blkdev (suc n)) o l
kept-acquire (negsuc n) o l = acquire_comm (blkdev (major_key (negsuc n))) o l

-- Giving back the number 0 where another one is registered.
unregister_zero :
    (n : ℕ) (answer : ℤ) (l : Ledger)
    → answer ≡ pos 0
    → l (blkdev 0) ≡ 0
    → unregister_blkdev answer (acquire (blkdev (suc n)) l) ≡ acquire (blkdev (suc n)) l
unregister_zero n answer l e free =
    rw
      (
        e,
        unregister_blkdev,
        release_not_held (blkdev 0) (acquire (blkdev (suc n)) l)
            (acquire_other (blkdev (suc n)) (blkdev 0) l (λ d. omega arith) ∙ free),
      )
      refl

unregister-acquire :
    (major answer : ℤ) (l : Ledger)
    → IsInt major
    → l (blkdev 0) ≡ 0
    → (major ≢ pos 0 → answer ≡ pos 0)
    → unregister_blkdev answer (acquire (blkdev (registered major answer)) l) ≡ kept major l
unregister-acquire (pos zero) answer l i free zeroed =
    rw (unregister_blkdev, release-acquire (blkdev (major_key answer)) l) refl
unregister-acquire (pos (suc n)) answer l i free zeroed =
    unregister_zero n answer l (zeroed (λ e. cc)) free
unregister-acquire (negsuc n) answer l i free zeroed =
    let positive : suc (2 ^ 32 - n - 2) ≡ major_key (negsuc n) = omega arith in
    subst (λ key. unregister_blkdev answer (acquire (blkdev key) l) ≡ acquire (blkdev key) l)
      positive (unregister_zero (2 ^ 32 - n - 2) answer l (zeroed (λ e. cc)) free)

-- The module once it has its memory.
abbrev with_bytes : Answers → Module → List ℕ → ℤ → Ledger → Module
with_bytes k m bytes major held = record m {
  major_num = major;
  device = record { size = wanted m; bytes = bytes };
  held = held;
}

module _ (k : Answers) (m : Module) where
  abbrev major : ℤ
  major = k.register_blkdev m.major_num

  abbrev loaded : List ℕ → Module
  loaded bytes = record (with_bytes k m bytes major (loaded_held k m)) {
    gd_major = major;
    capacity = extend32 m.nsectors;
  }

  granted :
      (bytes : List ℕ)
      → k.vmalloc (wanted m) ≡ some bytes
      → k.blk_init_queue ≡ true
      → ltb_ℤ major (pos 0) ≡ false
      → k.alloc_disk ≡ true
      → Loads k m
  unfolding sbd_init
  granted bytes mem q r d =
      (loaded bytes, rw (mem, sbd_init, q, r, d), refl, refl, refl, refl, refl, mem)

  abbrev with_queue_held : Ledger
  with_queue_held = acquire queue (acquire buffer m.held)

  module _ (registry : IsRegistry k m) (accepted : ltb_ℤ major (pos 0) ≡ false) where
    unregistered :
        unregister_blkdev major (acquire (blkdev (registered m.major_num major)) with_queue_held)
        ≡ acquire queue (acquire buffer (kept m.major_num m.held))
    unregistered =
        unregister-acquire m.major_num major with_queue_held registry.int
          (acquire_other queue (blkdev 0) (acquire buffer m.held) (λ d. omega arith)
            ∙ acquire_other buffer (blkdev 0) m.held (λ d. omega arith)
            ∙ registry.none_at_zero)
          (λ asked. registry.answers_zero asked accepted)
        ∙ kept-acquire m.major_num queue (acquire buffer m.held)
        ∙ ap (acquire queue) (kept-acquire m.major_num buffer m.held)

    -- Unloading leaves the number that was asked for, if one was.
    pub exits :
        (m' : Module)
        → m'.held ≡ loaded_held k m
        → m'.major_num ≡ major
        → sbd_exit m' ≡ some (kept m.major_num m.held)
    unfolding sbd_exit
    exits m' held number = rw (
      held,
      number,
      release-acquire disk (acquire (blkdev (registered m.major_num major)) with_queue_held),
      unregistered,
      release-acquire queue (acquire buffer (kept m.major_num m.held)),
      release-acquire buffer (kept m.major_num m.held),
    )

  -- Loading that is granted.
  pub granted-Loads : grants k m ≡ true → Loads k m
  granted-Loads all = elim (Option-cases (k.vmalloc (wanted m))) [
    | inl mem ↦ absurd (true-false (sym all ∙ rw (mem, grants)))
    | inr (bytes, mem) ↦ elim (Bool-cases k.blk_init_queue) [
      | inr q ↦ absurd (true-false (sym all ∙ rw (mem, grants, q)))
      | inl q ↦ elim (Bool-cases (ltb_ℤ major (pos 0))) [
        | inl r ↦ absurd (true-false (sym all ∙ rw (mem, grants, q, r)))
        | inr r ↦ elim (Bool-cases k.alloc_disk) [
          | inr d ↦ absurd (true-false (sym all ∙ rw (mem, grants, q, r, d)))
          | inl d ↦ granted bytes mem q r d
        ]
      ]
    ]
  ]
