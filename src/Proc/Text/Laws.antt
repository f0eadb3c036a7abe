-- ===== src/Proc/Text/Laws.antt =====
-- filesystem: what is printed is scanned again, and it fits the arrays that it is printed to.
use kernel_examples.Prelude.{
  ℕ, zero, suc, ◌+◌, ◌-◌, ◌*◌, ◌/◌, ◌%◌, ◌^◌, ◌<◌, ◌≤◌, ◌≡◌, refl, sym, ap, append-nil, ◌∙◌, arith,
  Bool, true, false, none, some, List, [], ◌∷◌, ◌++◌, length, length-append, append_assoc, ltb,
  ne→==, ◌>>=◌, Bool-cases, inl, inr,
}
use kernel_examples.Prelude.Int.{ℤ, pos, negsuc}
use kernel_examples.Kernel.{signed32_small, signed32_large}
use kernel_examples.Proc.Text.{
  print_digits, max_digits, print_int, print_line, is_digit, is_space, scan_digits, int_of,
  scan_number, scan_int,
}

-- The numbers of an int.
abbrev pub IsInt : ℤ → Type 0
IsInt (pos n) = n < 2 ^ 31
IsInt (negsuc n) = n < 2 ^ 31

is_digit-digit : (d : ℕ) → d < 10 → is_digit (b'0' + d) ≡ true
is_digit-digit d h = ground arith

not_space : (d : ℕ) → d < 10 → is_space (b'0' + d) ≡ false
not_space d h = ground arith

scan_digits-digit :
    (n d : ℕ) (rest : List ℕ)
    → d < 10
    → scan_digits n ((b'0' + d) ∷ rest) ≡ scan_digits (n * 10 + d) rest
unfolding scan_digits
scan_digits-digit n d rest h =
    rw (is_digit-digit d h) (ap (λ k. scan_digits (n * 10 + k) rest) (omega arith))

scan_digits-print_digits :
    (fuel n : ℕ) (rest : List ℕ)
    → n < 10 ^ fuel
    → scan_digits 0 (print_digits fuel n ++ rest) ≡ scan_digits n rest
unfolding print_digits
scan_digits-print_digits zero n rest h = ap (λ k. scan_digits k rest) (omega arith)
scan_digits-print_digits (suc fuel) n rest h = elim (Bool-cases (ltb n 10)) [
  | inl small ↦
      rw small
        (scan_digits-digit 0 n rest (ground arith) ∙ ap (λ k. scan_digits k rest) (omega arith))
  | inr large ↦ rw large (
      ap (scan_digits 0) (append_assoc (print_digits fuel (n / 10)) ((b'0' + n % 10) ∷ []) rest)
      ∙ scan_digits-print_digits fuel (n / 10) ((b'0' + n % 10) ∷ rest) (omega arith)
      ∙ scan_digits-digit (n / 10) (n % 10) rest (omega arith)
      ∙ ap (λ k. scan_digits k rest) (omega arith))
]

-- The text starts with a digit.
first_digit :
    (fuel n : ℕ)
    → (d : ℕ) × (more : List ℕ) × (d < 10) × (print_digits (suc fuel) n ≡ (b'0' + d) ∷ more)
unfolding print_digits
first_digit zero n = elim (Bool-cases (ltb n 10)) [
  | inl small ↦ (n, [], ground arith, rw small refl)
  | inr large ↦ (n % 10, [], omega arith, rw large refl)
]
first_digit (suc fuel) n = elim (Bool-cases (ltb n 10)) [
  | inl small ↦ (n, [], ground arith, rw small refl)
  | inr large ↦
      let (d, more, below, front) = first_digit fuel (n / 10) in
      (d, more ++ ((b'0' + n % 10) ∷ []), below, rw (large, front) refl)
]

scan_number-digits :
    (negative : Bool) (str : List ℕ) (d : ℕ) (more : List ℕ)
    → d < 10
    → str ≡ (b'0' + d) ∷ more
    → scan_number negative str ≡ (scan_digits 0 str >>= λ n. some (some (int_of negative n)))
unfolding scan_number
scan_number-digits negative str d more h e =
    rw (e, scan_digits-digit 0 d more h, is_digit-digit d h)
      (ap (λ k. scan_digits k more >>= λ n. some (some (int_of negative n))) (omega arith))

-- A number that is printed, before any text that does not start with a digit, is scanned again.
scan_number-print_digits :
    (negative : Bool) (n c : ℕ) (rest : List ℕ)
    → n < 10 ^ max_digits
    → is_digit c ≡ false
    → scan_number negative (print_digits max_digits n ++ (c ∷ rest))
      ≡ some (some (int_of negative n))
unfolding scan_number scan_digits
scan_number-print_digits negative n c rest h other =
    let (d, more, below, text) = first_digit 9 n in
    let ended : scan_digits n (c ∷ rest) ≡ some n = rw other refl in
    scan_number-digits negative (print_digits max_digits n ++ (c ∷ rest)) d (more ++ (c ∷ rest))
      below (ap (λ l. l ++ (c ∷ rest)) text)
    ∙ ap (λ o. o >>= λ k. some (some (int_of negative k)))
        (scan_digits-print_digits max_digits n (c ∷ rest) h ∙ ended)

scan_int-digit :
    (str : List ℕ) (d : ℕ) (more : List ℕ)
    → d < 10
    → str ≡ (b'0' + d) ∷ more
    → scan_int str ≡ scan_number false str
unfolding scan_int
scan_int-digit str d more h e = rw (e, not_space d h, ne→== (b'0' + d) b'-' (omega arith)) refl

int_of-pos : (n : ℕ) → n < 2 ^ 31 → int_of false n ≡ pos n
int_of-pos n h = signed32_small (n % 2 ^ 32) (omega arith) ∙ ap pos (omega arith)

int_of-negsuc : (n : ℕ) → n < 2 ^ 31 → int_of true (suc n) ≡ negsuc n
int_of-negsuc n h =
    signed32_large ((2 ^ 32 - suc n % 2 ^ 32) % 2 ^ 32) (omega arith) (omega arith)
    ∙ ap negsuc (omega arith)

-- A number is scanned back from the text printed for it if something that is no digit follows.
pub scan_int-terminated :
    (n : ℤ) (c : ℕ) (rest : List ℕ)
    → IsInt n
    → is_digit c ≡ false
    → scan_int (print_int n ++ (c ∷ rest)) ≡ some (some n)
unfolding scan_int print_int
scan_int-terminated (pos n) c rest h other =
    let (d, more, below, text) = first_digit 9 n in
    scan_int-digit (print_digits max_digits n ++ (c ∷ rest)) d (more ++ (c ∷ rest)) below
      (ap (λ l. l ++ (c ∷ rest)) text)
    ∙ scan_number-print_digits false n c rest (omega arith) other
    ∙ ap (λ k. some (some k)) (int_of-pos n h)
scan_int-terminated (negsuc n) c rest h other =
    scan_number-print_digits true (suc n) c rest (omega arith) other
    ∙ ap (λ k. some (some k)) (int_of-negsuc n h)

-- What was printed as a line is scanned back, whatever follows it.
pub scan_int-print_line :
    (n : ℤ) (rest : List ℕ) → IsInt n → scan_int (print_line n ++ rest) ≡ some (some n)
unfolding print_line
scan_int-print_line n rest h =
    ap scan_int (append_assoc (print_int n) (b'\n' ∷ []) rest)
    ∙ scan_int-terminated n b'\n' rest h refl

pub length-print_digits : (fuel n : ℕ) → length (print_digits fuel n) ≤ fuel
unfolding print_digits
length-print_digits zero n = omega arith
length-print_digits (suc fuel) n = elim (Bool-cases (ltb n 10)) [
  | inl small ↦ rw small (omega arith)
  | inr large ↦
      let front = length-print_digits fuel (n / 10) in
      rw large
        (omega (arith, length-append {A = ℕ} (print_digits fuel (n / 10)) ((b'0' + n % 10) ∷ [])))
]

-- A line has at most 12 bytes.
pub length-print_line : (n : ℤ) → length (print_line n) ≤ 12
unfolding print_line print_int
length-print_line (pos n) =
    let digits = length-print_digits max_digits n in
    omega (arith, length-append {A = ℕ} (print_digits max_digits n) (b'\n' ∷ []))
length-print_line (negsuc n) =
    let digits = length-print_digits max_digits (suc n) in
    omega (arith, length-append {A = ℕ} (print_digits max_digits (suc n)) (b'\n' ∷ []))

pub scan_int_line : (n : ℤ) → IsInt n → scan_int (print_line n) ≡ some (some n)
scan_int_line n h = ap scan_int (sym (append-nil (print_line n))) ∙ scan_int-print_line n [] h

scan_number-unterminated :
    (negative : Bool) (n : ℕ)
    → n < 10 ^ max_digits
    → scan_number negative (print_digits max_digits n) ≡ none
unfolding scan_digits
scan_number-unterminated negative n h =
    let (d, more, below, text) = first_digit 9 n in
    let scanned : scan_digits 0 (print_digits max_digits n) ≡ none =
      ap (scan_digits 0) (sym (append-nil (print_digits max_digits n)))
      ∙ scan_digits-print_digits max_digits n [] h in
    scan_number-digits negative (print_digits max_digits n) d more below text
    ∙ ap (λ o. o >>= λ k. some (some (int_of negative k))) scanned

-- A number with nothing behind its last digit is read past its end.
pub scan_int-unterminated : (n : ℤ) → IsInt n → scan_int (print_int n) ≡ none
unfolding scan_int print_int
scan_int-unterminated (pos n) h =
    let (d, more, below, text) = first_digit 9 n in
    scan_int-digit (print_digits max_digits n) d more below text
    ∙ scan_number-unterminated false n (omega arith)
scan_int-unterminated (negsuc n) h = scan_number-unterminated true (suc n) (omega arith)
