-- ===== src/Block/Disk/Apart.antt =====
-- block_dev/sbd.c: segments that do not meet, and what two of them do in either order.
use mathlib.Core.List.{Permᴰ}
use mathlib.Core.Path.{fun_ext}
use kernel_examples.Prelude.{
  ℕ, ◌+◌, ◌≤◌, ◌≡◌, ◌⊎◌, inl, inr, sym, ap₂, ◌∙◌, arith, false, Option, List, [], ◌∷◌, get_elem?,
  list_ext, All, subst,
}
use kernel_examples.Block.{Device}
use kernel_examples.Block.Request.{Segment}
use kernel_examples.Block.Disk.{first_byte, bytes_of, written, filled_at, Moves}

-- Neither segment writes where the other reads or writes.
abbrev pub Apart : ℕ → Segment → Segment → Type 0
Apart lbs s t =
    ((s.write ≡ false) × (t.write ≡ false))
    ⊎ (first_byte lbs s + bytes_of lbs s ≤ first_byte lbs t)
    ⊎ (first_byte lbs t + bytes_of lbs t ≤ first_byte lbs s)

module _ (lbs size : ℕ) (s t : Segment) (apart : Apart lbs s t) where
  written_comm :
      (i : ℕ) (old : Option ℕ)
      → written lbs size t i (written lbs size s i old)
        ≡ written lbs size s i (written lbs size t i old)
  unfolding written
  written_comm i old = ground arith

  filled_before :
      (disk : ℕ → Option ℕ) (j : ℕ)
      → filled_at lbs size s (λ i. written lbs size t i (disk i)) j ≡ filled_at lbs size s disk j
  unfolding written filled_at
  filled_before disk j = ground arith

Device-ext :
    {dev dev' : Device}
    → dev.size ≡ dev'.size
    → ((i : ℕ) → get_elem? dev.bytes i ≡ get_elem? dev'.bytes i)
    → dev ≡ dev'
Device-ext same h = ap₂ (λ size bytes. record { size = size; bytes = bytes }) same (list_ext _ _ h)

-- Two segments that do not meet, in either order.
module _ {lbs : ℕ} {s t : Segment} {dev mid mid' dev' dev'' : Device} {f f' g g' : List ℕ}
    (apart : Apart lbs s t) (sw : Moves lbs dev s mid f) (tw : Moves lbs mid t dev' g)
    (tw' : Moves lbs dev t mid' g') (sw' : Moves lbs mid' s dev'' f') where
  pub same_device : dev' ≡ dev''
  same_device =
      Device-ext (tw.same_size ∙ sw.same_size ∙ sym tw'.same_size ∙ sym sw'.same_size) (λ i.
        tw.disk_after i
        ∙ ap₂ (λ size old. written lbs size t i old) sw.same_size (sw.disk_after i)
        ∙ written_comm lbs dev.size s t apart i _
        ∙ sym (
            sw'.disk_after i
            ∙ ap₂ (λ size old. written lbs size s i old) tw'.same_size (tw'.disk_after i)))

  pub same_filled : f ≡ f'
  same_filled = list_ext f f' (λ j.
      sw.buffer_after j
      ∙ sym (filled_before lbs dev.size s t apart (get_elem? dev.bytes) j)
      ∙ sym (
          sw'.buffer_after j
          ∙ ap₂ (λ size disk. filled_at lbs size s disk j) tw'.same_size (fun_ext tw'.disk_after)))

pub Apart-sym : (lbs : ℕ) (s t : Segment) → Apart lbs s t → Apart lbs t s
Apart-sym lbs s t (inl (a, b)) = inl (b, a)
Apart-sym lbs s t (inr (inl h)) = inr (inr h)
Apart-sym lbs s t (inr (inr h)) = inr (inl h)

-- No two of the segments meet.
abbrev pub AllApart : ℕ → List Segment → Type 0
AllApart lbs [] = Unit
AllApart lbs (s ∷ segments) = All (Apart lbs s) segments × AllApart lbs segments

pub All-Permᴰ {ℓ κ} :
    {A : Type ℓ} (P : A → Type κ) {xs ys : List A} → Permᴰ xs ys → All P xs → All P ys
All-Permᴰ P Permᴰ.nil h = tt
All-Permᴰ P (Permᴰ.cons e p) h = (subst P e h.0, All-Permᴰ P p h.1)
All-Permᴰ P (Permᴰ.swap e f) h = (subst P f h.1.0, (subst P e h.0, h.1.1))
All-Permᴰ P (Permᴰ.trans p q) h = All-Permᴰ P q (All-Permᴰ P p h)

module _ (lbs : ℕ) where
  pub AllApart-Permᴰ : {xs ys : List Segment} → Permᴰ xs ys → AllApart lbs xs → AllApart lbs ys
  AllApart-Permᴰ Permᴰ.nil h = tt
  AllApart-Permᴰ (Permᴰ.cons {l₂} e p) h =
      (subst (λ s. All (Apart lbs s) l₂) e (All-Permᴰ _ p h.0), AllApart-Permᴰ p h.1)
  AllApart-Permᴰ (Permᴰ.swap {a} {b} {a'} {b'} {l} e f) h =
      subst (λ c. AllApart lbs (c ∷ b' ∷ l)) f
        (subst (λ c. AllApart lbs (b ∷ c ∷ l)) e ((Apart-sym lbs a b h.0.0, h.1.0), (h.0.1, h.1.1)))
  AllApart-Permᴰ (Permᴰ.trans p q) h = AllApart-Permᴰ q (AllApart-Permᴰ p h)
