-- ===== src/Efi/Name/Laws.antt =====
-- kprobes/efi_reboot_monitor.c: what set_efi_name leaves in the array.
use native.Mathlib.Nat.{sub-zero}
use kernel_examples.Prelude.{
  IsNonzero, ℕ, zero, suc, ◌+◌, ◌-◌, ◌%◌, ◌≤◌, ◌<◌, ◌≡◌, refl, ap, ◌∙◌, arith, none, some, List, [],
  ◌∷◌, ◌++◌, map, length, length-append, replicate, ltb, leb, if◌then◌else◌, blit, All,
  append_assoc, lt→ltb, ne→==, Bool-cases, inl, inr, leb→le,
}
use kernel_examples.Efi.Name.{name_size, copy_name, set_efi_name}

-- The low byte of each character.
abbrev pub low_bytes : List ℕ → List ℕ
low_bytes = map (λ c. c % 256)

-- Writing the next byte behind those that are there.
blit_next :
    (front : List ℕ) (k x : ℕ)
    → blit (front ++ replicate (suc k) 0) (length front) (x ∷ [])
      ≡ (front ++ (x ∷ [])) ++ replicate k 0
blit_next [] zero x = refl
blit_next [] (suc k) x = refl
blit_next (a ∷ front) k x = ap (λ r. a ∷ r) (blit_next front k x)

length-snoc : (front : List ℕ) (x : ℕ) → length (front ++ (x ∷ [])) ≡ length front + 1
length-snoc front x = omega (arith, length-append front (x ∷ []))

shift :
    (front : List ℕ) (x : ℕ) (low : List ℕ) (m m' : ℕ)
    → m ≡ m'
    → (front ++ (x ∷ [])) ++ (low ++ replicate m 0) ≡ front ++ (x ∷ (low ++ replicate m' 0))
shift front x low m m' e =
    append_assoc front (x ∷ []) (low ++ replicate m 0)
    ∙ ap (λ k. front ++ (x ∷ (low ++ replicate k 0))) e

copy_fits :
    (name rest front : List ℕ) (n : ℕ)
    → All IsNonzero name
    → length front + n ≡ name_size
    → length name ≤ n
    → copy_name (name ++ (0 ∷ rest)) (length front) (front ++ replicate n 0)
      ≡ some (front ++ (low_bytes name ++ replicate (n - length name) 0))
unfolding copy_name
copy_fits [] rest front n nz e h = rw sub-zero
copy_fits (c ∷ name) rest front zero nz e h = absurd (omega arith)
copy_fits (c ∷ name) rest front (suc n) nz e h =
    rw
      (
        ne→== c 0 nz.0,
        lt→ltb (length front) name_size (omega arith),
        blit_next front n (c % 256),
        ← length-snoc front (c % 256),
      )
      (copy_fits name rest (front ++ (c % 256 ∷ [])) n nz.1
          (omega (arith, length-snoc front (c % 256))) (omega arith)
        ∙ ap some (
            shift front (c % 256) (low_bytes name) (n - length name) (suc n - suc (length name))
              (omega arith)))

copy_overflows :
    (name rest buf : List ℕ) (cnt : ℕ)
    → All IsNonzero name
    → cnt ≤ name_size
    → name_size < cnt + length name
    → copy_name (name ++ (0 ∷ rest)) cnt buf ≡ none
unfolding copy_name
copy_overflows [] rest buf cnt nz h k = absurd (omega arith)
copy_overflows (c ∷ name) rest buf cnt nz h k = elim (Bool-cases (ltb cnt name_size)) [
  | inl more ↦
      rw (ne→== c 0 nz.0, more)
        (copy_overflows name rest (blit buf cnt (c % 256 ∷ [])) (cnt + 1) nz.1 (ground arith)
          (omega arith))
  | inr full ↦ rw (ne→== c 0 nz.0, full)
]

-- A name without a zero, up to the zero behind it: one of at most 50 characters is stored as its low bytes with zeros behind them, and a longer
-- one is written past the array.
pub set_efi_name_lem :
    (name rest : List ℕ)
    → All IsNonzero name
    → set_efi_name (name ++ (0 ∷ rest)) ≡ (
        if leb (length name) name_size
        then some (low_bytes name ++ replicate (name_size - length name) 0)
        else none)
unfolding set_efi_name
set_efi_name_lem name rest nz = elim (Bool-cases (leb (length name) name_size)) [
  | inl fits ↦ rw fits (copy_fits name rest [] name_size nz refl (leb→le _ _ fits))
  | inr longer ↦
      rw longer (copy_overflows name rest (replicate name_size 0) 0 nz (omega arith) (ground arith))
]
