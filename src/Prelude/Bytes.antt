-- ===== src/Prelude/Bytes.antt =====
-- A buffer of bytes: reading a range, overwriting a range, and how the two meet.
use Prim.Native.Nat.{ℕ, zero, suc, ◌+◌, ◌-◌, ◌<◌, ◌≤◌}
use mathlib.Core.Path.{◌≡◌, refl, ap, subst, ◌∙◌}
use mathlib.Core.Logic.{◌⊎◌, ◌≢◌, inl, inr}
use mathlib.Core.Bool.{Bool, true, false, ◌&&◌}
use mathlib.Core.List.{List, [], ◌∷◌, ◌++◌}
use mathlib.Core.Option.{Option, none, some}
use native.Mathlib.Omega.{arith}
use kernel_examples.Prelude.Lists.{
  All, length, get_elem?, take, drop, length-take, length-drop, get_elem?-take, get_elem?-take_past,
  get_elem?-drop,
}
use kernel_examples.Prelude.Tests.{
  ltb, leb→le, leb→lt, ltb→lt, ltb→le, Bool-cases, ◌==◌, ne→==, ◌>>=◌, leb, if◌then◌else◌, le→leb,
}

module _ {ℓ} {A : Type ℓ} where
  -- The source over the front of the destination, which keeps its length.
  abbrev pub overlay : List A → List A → List A
  overlay [] src = []
  overlay (x ∷ xs) [] = x ∷ xs
  overlay (x ∷ xs) (y ∷ ys) = y ∷ overlay xs ys

  -- The source over the destination from an offset on.
  abbrev pub blit : List A → ℕ → List A → List A
  blit dst zero src = overlay dst src
  blit [] (suc off) src = []
  blit (x ∷ dst) (suc off) src = x ∷ blit dst off src

  abbrev pub slice : ℕ → ℕ → List A → List A
  slice off n xs = take n (drop off xs)

  -- `memcpy` of `n` elements, from `soff` of `src` to `doff` of `dst`; `none` is an access
  -- outside one of the two buffers.
  abbrev pub memcpy : List A → ℕ → List A → ℕ → ℕ → Option (List A)
  memcpy dst doff src soff n =
      if leb (doff + n) (length dst)
      then (if leb (soff + n) (length src) then some (blit dst doff (slice soff n src)) else none)
      else none

module _ {ℓ} {A : Type ℓ} where
  length-overlay : (dst src : List A) → length (overlay dst src) ≡ length dst
  length-overlay [] src = refl
  length-overlay (x ∷ xs) [] = refl
  length-overlay (x ∷ xs) (y ∷ ys) = ap suc (length-overlay xs ys)

  pub length-blit : (dst : List A) (off : ℕ) (src : List A) → length (blit dst off src) ≡ length dst
  length-blit [] zero src = refl
  length-blit (x ∷ dst) zero src = length-overlay (x ∷ dst) src
  length-blit [] (suc off) src = refl
  length-blit (x ∷ dst) (suc off) src = ap suc (length-blit dst off src)

  take-overlay :
      (dst src : List A) → length src ≤ length dst → take (length src) (overlay dst src) ≡ src
  take-overlay dst [] h = refl
  take-overlay [] (y ∷ ys) h = absurd (omega arith)
  take-overlay (x ∷ xs) (y ∷ ys) h = ap (λ r. y ∷ r) (take-overlay xs ys (omega arith))

  -- What was written is read back.
  pub slice-blit_self :
      (dst : List A) (off : ℕ) (src : List A)
      → off + length src ≤ length dst
      → slice off (length src) (blit dst off src) ≡ src
  slice-blit_self [] zero src h = take-overlay [] src (omega arith)
  slice-blit_self (x ∷ dst) zero src h = take-overlay (x ∷ dst) src (omega arith)
  slice-blit_self [] (suc off) src h = absurd (omega arith)
  slice-blit_self (x ∷ dst) (suc off) src h = slice-blit_self dst off src (omega arith)

  pub slice-blit :
      (n : ℕ) (dst : List A) (off : ℕ) (src : List A)
      → length src ≡ n
      → off + n ≤ length dst
      → slice off n (blit dst off src) ≡ src
  slice-blit n dst off src e h =
      subst (λ k. slice off k (blit dst off src) ≡ src) e
        (slice-blit_self dst off src (omega arith))

  get_elem?-overlay_past :
      (dst src : List A) (i : ℕ) → length src ≤ i → get_elem? (overlay dst src) i ≡ get_elem? dst i
  get_elem?-overlay_past [] src i h = refl
  get_elem?-overlay_past (x ∷ xs) [] i h = refl
  get_elem?-overlay_past (x ∷ xs) (y ∷ ys) zero h = absurd (omega arith)
  get_elem?-overlay_past (x ∷ xs) (y ∷ ys) (suc i) h = get_elem?-overlay_past xs ys i (omega arith)

  -- Outside the range nothing changes.
  pub get_elem?-blit_outside :
      (dst : List A) (off : ℕ) (src : List A) (i : ℕ)
      → (i < off) ⊎ (off + length src ≤ i)
      → get_elem? (blit dst off src) i ≡ get_elem? dst i
  get_elem?-blit_outside [] zero src i h = refl
  get_elem?-blit_outside (x ∷ dst) zero src i h =
      get_elem?-overlay_past (x ∷ dst) src i (omega arith)
  get_elem?-blit_outside [] (suc off) src i h = refl
  get_elem?-blit_outside (x ∷ dst) (suc off) src zero h = refl
  get_elem?-blit_outside (x ∷ dst) (suc off) src (suc i) h =
      get_elem?-blit_outside dst off src i (omega arith)

  get_elem?-overlay :
      (dst src : List A) (i : ℕ)
      → i < length src
      → length src ≤ length dst
      → get_elem? (overlay dst src) i ≡ get_elem? src i
  get_elem?-overlay dst [] i h k = absurd (omega arith)
  get_elem?-overlay [] (y ∷ ys) i h k = absurd (omega arith)
  get_elem?-overlay (x ∷ xs) (y ∷ ys) zero h k = refl
  get_elem?-overlay (x ∷ xs) (y ∷ ys) (suc i) h k =
      get_elem?-overlay xs ys i (omega arith) (omega arith)

  -- Inside the range stand the elements of the source.
  pub get_elem?-blit_inside :
      (dst : List A) (off : ℕ) (src : List A) (i : ℕ)
      → i < length src
      → off + length src ≤ length dst
      → get_elem? (blit dst off src) (off + i) ≡ get_elem? src i
  get_elem?-blit_inside [] off src i h k = absurd (omega arith)
  get_elem?-blit_inside (x ∷ dst) zero src i h k =
      ap (get_elem? (overlay (x ∷ dst) src)) (omega arith)
      ∙ get_elem?-overlay (x ∷ dst) src i h (omega arith)
  get_elem?-blit_inside (x ∷ dst) (suc off) src i h k =
      let e : suc off + i ≡ suc (off + i) = omega arith in
      ap (get_elem? (x ∷ blit dst off src)) e
      ∙ get_elem?-blit_inside dst off src i (omega arith) (omega arith)

  pub length-slice : (off n : ℕ) (xs : List A) → off + n ≤ length xs → length (slice off n xs) ≡ n
  length-slice off n xs h = omega (arith, length-take n (drop off xs), length-drop off xs)

  -- The front of a range, place by place.
  pub get_elem?-take-slice :
      (m off n : ℕ) (xs : List A) (j : ℕ)
      → m ≤ n
      → get_elem? (take m (slice off n xs)) j ≡ (if ltb j m then get_elem? xs (off + j) else none)
  get_elem?-take-slice m off n xs j h = elim (Bool-cases (ltb j m)) [
    | inl front ↦ rw front (
        get_elem?-take m j _ (ltb→lt _ _ front)
        ∙ get_elem?-take n j _ (let below : j < m = ltb→lt _ _ front in omega arith)
        ∙ get_elem?-drop off j xs)
    | inr behind ↦ rw behind (get_elem?-take_past m j _ (ltb→le _ _ behind))
  ]

  pub memcpy_in :
      (dst : List A) (doff : ℕ) (src : List A) (soff n : ℕ)
      → doff + n ≤ length dst
      → soff + n ≤ length src
      → memcpy dst doff src soff n ≡ some (blit dst doff (slice soff n src))
  memcpy_in dst doff src soff n h k = rw (le→leb _ _ h, le→leb _ _ k)

-- `i` stands among the `n` places from `off` on.
abbrev pub within : ℕ → ℕ → ℕ → Bool
within off n i = leb off i && ltb i (off + n)

-- A place lies in a range, or before or behind it.
pub within_cases :
    (off n i : ℕ)
    → ((within off n i ≡ true) × (off ≤ i) × (i < off + n))
      ⊎ ((within off n i ≡ false) × ((i < off) ⊎ (off + n ≤ i)))
within_cases off n i = elim (Bool-cases (leb off i)) [
  | inr before ↦ inr (rw before, inl (leb→lt _ _ before))
  | inl from ↦ elim (Bool-cases (ltb i (off + n))) [
    | inl below ↦ inl (rw (from, below), leb→le _ _ from, ltb→lt _ _ below)
    | inr behind ↦ inr (rw (from, behind), inr (ltb→le _ _ behind))
  ]
]

-- What a range of a buffer holds once a range of another has been copied over it.
module _ {ℓ} {A : Type ℓ} (dst : List A) (off : ℕ) (src : List A) (soff n : ℕ)
    (room : off + n ≤ length dst) (given : soff + n ≤ length src) where
  pub get_elem?-copied_inside :
      (i k : ℕ)
      → off ≤ i
      → i < off + n
      → soff + (i - off) ≡ k
      → get_elem? (blit dst off (slice soff n src)) i ≡ get_elem? src k
  get_elem?-copied_inside i k above below e =
      let size : length (slice soff n src) ≡ n = length-slice soff n src given in
      ap (get_elem? (blit dst off (slice soff n src))) (omega arith)
      ∙ get_elem?-blit_inside dst off (slice soff n src) (i - off) (omega arith) (omega arith)
      ∙ get_elem?-take n (i - off) _ (omega arith)
      ∙ get_elem?-drop soff (i - off) src
      ∙ ap (get_elem? src) e

  pub get_elem?-copied_outside :
      (i : ℕ)
      → (i < off) ⊎ (off + n ≤ i)
      → get_elem? (blit dst off (slice soff n src)) i ≡ get_elem? dst i
  get_elem?-copied_outside i h =
      let size : length (slice soff n src) ≡ n = length-slice soff n src given in
      get_elem?-blit_outside dst off (slice soff n src) i (omega arith)

-- A byte of a text, which ends with a zero byte.
abbrev pub IsNonzero : ℕ → Type 0
IsNonzero c = c ≢ 0

-- The bytes up to a zero byte; `none` is a read behind the memory, where there is none.
unfoldable pub c_string : List ℕ → Option (List ℕ)
c_string [] = none
c_string (c ∷ bytes) =
    let rest = c_string bytes in if c == 0 then some [] else (rest >>= λ text. some (c ∷ text))

pub c_string-ended : (xs rest : List ℕ) → All IsNonzero xs → c_string (xs ++ (0 ∷ rest)) ≡ some xs
unfolding c_string
c_string-ended [] rest h = refl
c_string-ended (x ∷ xs) rest h = rw (ne→== x 0 h.0, c_string-ended xs rest h.1) refl

pub c_string-unended : (xs : List ℕ) → All IsNonzero xs → c_string xs ≡ none
unfolding c_string
c_string-unended [] h = refl
c_string-unended (x ∷ xs) h = rw (ne→== x 0 h.0, c_string-unended xs h.1) refl
