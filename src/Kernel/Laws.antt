-- ===== src/Kernel/Laws.antt =====
-- Giving back what was just acquired undoes it, in whatever order things were acquired.
use mathlib.Core.Path.{fun_ext}
use kernel_examples.Prelude.{
  ℕ, zero, suc, ◌+◌, ◌≡◌, ◌≢◌, refl, ap, ◌∙◌, arith, none, some, ltb, true,
}
use kernel_examples.Kernel.Objects.{Object, Ledger, acquire, release, id, acquire_all, release_all}

pub release-acquire : (o : Object) (l : Ledger) → release o (acquire o l) ≡ some l
unfolding acquire release
release-acquire o l = rw (held) (ap some (fun_ext λ p. ground arith))
  where
    held : ltb 0 (acquire o l o) ≡ true
    held = ground arith

pub acquire_comm : (o p : Object) (l : Ledger) → acquire o (acquire p l) ≡ acquire p (acquire o l)
unfolding acquire
acquire_comm o p l = fun_ext λ q. ground arith

pub release-acquire_under :
    (o p : Object) (l : Ledger) → release o (acquire p (acquire o l)) ≡ some (acquire p l)
release-acquire_under o p l = ap (release o) (acquire_comm p o l) ∙ release-acquire o (acquire p l)

module _ (family : ℕ → Object) where
  acquire_all-acquire :
      (count i : ℕ) (o : Object) (l : Ledger)
      → acquire_all family count i (acquire o l) ≡ acquire o (acquire_all family count i l)
  unfolding acquire_all
  acquire_all-acquire zero i o l = refl
  acquire_all-acquire (suc count) i o l =
      ap (acquire_all family count (i + 1)) (acquire_comm (family i) o l)
      ∙ acquire_all-acquire count (i + 1) o (acquire (family i) l)

  -- The loop that gives a family back undoes the one that acquires it.
  pub release_all-acquire_all :
      (count i : ℕ) (l : Ledger)
      → release_all family count i (acquire_all family count i l) ≡ some l
  unfolding acquire_all release_all
  release_all-acquire_all zero i l = refl
  release_all-acquire_all (suc count) i l =
      rw
        (
          acquire_all-acquire count (i + 1) (family i) l,
          release-acquire (family i) (acquire_all family count (i + 1) l),
        )
        (release_all-acquire_all count (i + 1) l)

  -- The last of the family is acquired on top of the others.
  acquire_all_last :
      (count i : ℕ) (l : Ledger)
      → acquire_all family (suc count) i l
        ≡ acquire (family (i + count)) (acquire_all family count i l)
  unfolding acquire_all
  acquire_all_last zero i l = ap (λ k. acquire (family k) l) (omega arith)
  acquire_all_last (suc count) i l =
      acquire_all_last count (i + 1) (acquire (family i) l)
      ∙ ap (λ k. acquire (family k) (acquire_all family count (i + 1) (acquire (family i) l)))
          (omega arith)

  pub acquire_all_top :
      (count : ℕ) (l : Ledger)
      → acquire_all family (suc count) 0 l ≡ acquire (family count) (acquire_all family count 0 l)
  acquire_all_top count l =
      acquire_all_last count 0 l
      ∙ ap (λ k. acquire (family k) (acquire_all family count 0 l)) (omega arith)

  pub acquire_all_none : (i : ℕ) (l : Ledger) → acquire_all family 0 i l ≡ l
  unfolding acquire_all
  acquire_all_none i l = refl

  -- The first of the family can be given back first.
  pub acquire_all_first :
      (count i : ℕ) (l : Ledger)
      → acquire_all family (suc count) i l ≡ acquire (family i) (acquire_all family count (i + 1) l)
  unfolding acquire_all
  acquire_all_first count i l = acquire_all-acquire count (i + 1) (family i) l

pub release_not_held : (o : Object) (l : Ledger) → l o ≡ 0 → release o l ≡ none
unfolding release
release_not_held o l h = rw h

-- Acquiring another object does not change how often this one is held.
pub acquire_other : (o p : Object) (l : Ledger) → id o ≢ id p → acquire o l p ≡ l p
unfolding acquire
acquire_other o p l h = ground arith
