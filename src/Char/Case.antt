-- ===== src/Char/Case.antt =====
-- char_dev/mydynamic_udev.c: to_lower, to_upper and convert.
use kernel_examples.Prelude.{
  ℕ, zero, suc, ◌+◌, ◌-◌, ◌≡◌, refl, ap, subst, List, [], ◌∷◌, ◌++◌, map, length, leb, ◌==◌, ◌&&◌,
  if◌then◌else◌, blit, overlay,
}

-- A `char` of 128 or more is negative in C; both tests fail on it there and here.
pub to_lower : ℕ → ℕ
to_lower c = if leb b'A' c && leb c b'Z' then c - b'A' + b'a' else c

unfoldable pub to_upper : ℕ → ℕ
to_upper c = if leb b'a' c && leb c b'z' then c - b'a' + b'A' else c

-- The `switch` on the minor number.
pub convert_char : ℕ → ℕ → ℕ
unfolding to_lower to_upper
convert_char minor c = if minor == 1 then to_lower c else if minor == 2 then to_upper c else c

-- The loop over `lbuf` bytes from an offset of the buffer on, in place.
pub convert : List ℕ → ℕ → ℕ → ℕ → List ℕ
unfolding convert_char
convert [] off lbuf minor = []
convert (c ∷ kbuf) zero zero minor = c ∷ kbuf
convert (c ∷ kbuf) zero (suc lbuf) minor = convert_char minor c ∷ convert kbuf zero lbuf minor
convert (c ∷ kbuf) (suc off) lbuf minor = c ∷ convert kbuf off lbuf minor

convert-overlay_append :
    (kbuf front back : List ℕ) (minor : ℕ)
    → convert (overlay kbuf (front ++ back)) zero (length front) minor
      ≡ overlay kbuf (map (convert_char minor) front ++ back)
unfolding convert
convert-overlay_append [] front back minor = refl
convert-overlay_append (c ∷ kbuf) [] [] minor = refl
convert-overlay_append (c ∷ kbuf) [] (b ∷ back) minor = refl
convert-overlay_append (c ∷ kbuf) (a ∷ front) back minor =
    ap (λ r. convert_char minor a ∷ r) (convert-overlay_append kbuf front back minor)

-- Converting the front of what was just written is writing it converted.
convert-blit :
    (kbuf : List ℕ) (off : ℕ) (front back : List ℕ) (minor : ℕ)
    → convert (blit kbuf off (front ++ back)) off (length front) minor
      ≡ blit kbuf off (map (convert_char minor) front ++ back)
unfolding convert
convert-blit [] zero front back minor = refl
convert-blit (c ∷ kbuf) zero front back minor = convert-overlay_append (c ∷ kbuf) front back minor
convert-blit [] (suc off) front back minor = refl
convert-blit (c ∷ kbuf) (suc off) front back minor =
    ap (λ r. c ∷ r) (convert-blit kbuf off front back minor)

pub convert-blit_exact :
    (n : ℕ) (kbuf : List ℕ) (off : ℕ) (front back : List ℕ) (minor : ℕ)
    → length front ≡ n
    → convert (blit kbuf off (front ++ back)) off n minor
      ≡ blit kbuf off (map (convert_char minor) front ++ back)
convert-blit_exact n kbuf off front back minor e =
    subst
      (λ k.
        convert (blit kbuf off (front ++ back)) off k minor
        ≡ blit kbuf off (map (convert_char minor) front ++ back))
      e (convert-blit kbuf off front back minor)
