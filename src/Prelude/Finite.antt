-- ===== src/Prelude/Finite.antt =====
-- Tables: a test that is run on every number of a range, upwards from its start, holds at each.
use Prim.Native.Nat.{ℕ, zero, suc, ◌+◌, ◌<◌}
use mathlib.Core.Path.{◌≡◌, subst}
use mathlib.Core.Logic.{inl, inr}
use mathlib.Core.Bool.{Bool, true, false}
use native.Mathlib.Omega.{arith}
use kernel_examples.Prelude.Tests.{if◌then◌else◌, Bool-cases}

unfoldable pub passes : ℕ → ℕ → (ℕ → Bool) → Bool
passes start zero test = true
passes start (suc count) test =
    let later = passes (start + 1) count test in if test start then later else false

passes-first :
    (start count : ℕ) (test : ℕ → Bool) → passes start (suc count) test ≡ true → test start ≡ true
unfolding passes
passes-first start count test h = elim (Bool-cases (test start)) [
  | inl holds ↦ holds
  | inr fails ↦ ground arith
]

passes-later :
    (start count : ℕ) (test : ℕ → Bool)
    → passes start (suc count) test ≡ true
    → passes (start + 1) count test ≡ true
unfolding passes
passes-later start count test h = elim (Bool-cases (test start)) [
  | inl holds ↦ ground arith
  | inr fails ↦ ground arith
]

passes-at :
    (count start i : ℕ) (test : ℕ → Bool)
    → passes start count test ≡ true
    → i < count
    → test (start + i) ≡ true
passes-at zero start i test h k = absurd (omega arith)
passes-at (suc count) start zero test h k =
    subst (λ n. test n ≡ true) (omega arith) (passes-first start count test h)
passes-at (suc count) start (suc i) test h k =
    subst (λ n. test n ≡ true) (omega arith)
      (passes-at count (start + 1) i test (passes-later start count test h) (omega arith))

-- The entry of a table that starts at 0.
pub table_entry :
    (count : ℕ) (test : ℕ → Bool) → passes 0 count test ≡ true → (i : ℕ) → i < count → test i ≡ true
table_entry count test h i k =
    subst (λ n. test n ≡ true) (omega arith) (passes-at count 0 i test h k)
