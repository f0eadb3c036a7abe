-- ===== src/Irq/Lines/Laws.antt =====
-- irq/myinterrupt.c: the lines that loading took and no others are given back.
use kernel_examples.Prelude.{
  ℕ, zero, suc, ◌+◌, ◌≡◌, refl, ap, ◌∙◌, Bool, Bool-cases, inl, inr, some, ◌∷◌,
}
use kernel_examples.Prelude.Int.{pos, negsuc}
use kernel_examples.Kernel.{Object, Ledger, acquire, irq_line, acquire_comm, release-acquire}
use kernel_examples.Irq.Lines.{init_from, my_init, exit_from, my_exit}

module _ (request_irq : ℕ → Bool) where
  init_from-ids :
      (count irq : ℕ) (l m : Ledger)
      → (init_from request_irq count irq l).0 ≡ (init_from request_irq count irq m).0
  unfolding init_from
  init_from-ids zero irq l m = refl
  init_from-ids (suc count) irq l m = elim (Bool-cases (request_irq irq)) [
    | inl granted ↦ rw granted (
        ap (λ r. pos irq ∷ r)
          (init_from-ids count (irq + 1) (acquire (irq_line irq) l) (acquire (irq_line irq) m)))
    | inr refused ↦ rw refused (ap (λ r. negsuc 0 ∷ r) (init_from-ids count (irq + 1) l m))
  ]

  init_from-acquire :
      (count irq : ℕ) (o : Object) (l : Ledger)
      → (init_from request_irq count irq (acquire o l)).1
        ≡ acquire o (init_from request_irq count irq l).1
  unfolding init_from
  init_from-acquire zero irq o l = refl
  init_from-acquire (suc count) irq o l = elim (Bool-cases (request_irq irq)) [
    | inl granted ↦ rw granted (
        ap (λ m. (init_from request_irq count (irq + 1) m).1) (acquire_comm (irq_line irq) o l)
        ∙ init_from-acquire count (irq + 1) o (acquire (irq_line irq) l))
    | inr refused ↦ rw refused (init_from-acquire count (irq + 1) o l)
  ]

  exit_from-init_from :
      (count irq : ℕ) (l : Ledger)
      → exit_from (init_from request_irq count irq l).0 irq (init_from request_irq count irq l).1
        ≡ some l
  unfolding init_from exit_from
  exit_from-init_from zero irq l = refl
  exit_from-init_from (suc count) irq l = elim (Bool-cases (request_irq irq)) [
    | inl granted ↦
        rw
          (
            granted,
            init_from-acquire count (irq + 1) (irq_line irq) l,
            release-acquire (irq_line irq) (init_from request_irq count (irq + 1) l).1,
            init_from-ids count (irq + 1) (acquire (irq_line irq) l) l,
          )
          (exit_from-init_from count (irq + 1) l)
    | inr refused ↦ rw refused (exit_from-init_from count (irq + 1) l)
  ]

  -- Whichever lines the kernel grants, my_exit gives back the lines that my_init took, and no line that
  -- it did not take.
  my_exit-my_init :
      (nr_irqs : ℕ) (l : Ledger)
      → my_exit (my_init request_irq nr_irqs l).0 (my_init request_irq nr_irqs l).1 ≡ some l
  unfolding my_init my_exit
  my_exit-my_init nr_irqs l = exit_from-init_from nr_irqs 0 l
