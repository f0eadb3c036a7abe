-- ===== src/Proc/Text.antt =====
-- filesystem: what `sprintf` with "%d\n" prints and what the kernel's `sscanf` with "%d" reads.
pub mod Laws
use kernel_examples.Prelude.{
  ℕ, zero, suc, ◌+◌, ◌-◌, ◌*◌, ◌/◌, ◌%◌, ◌^◌, Bool, true, false, Option, none, some, List, [], ◌∷◌,
  ◌++◌, ltb, leb, ◌==◌, ◌&&◌, ◌||◌, if◌then◌else◌, ◌>>=◌,
}
use kernel_examples.Prelude.Int.{ℤ, pos, negsuc}
use kernel_examples.Kernel.{u32, signed32}

-- On fuel: ten digits are enough for an int.
pub print_digits : ℕ → ℕ → List ℕ
print_digits zero n = []
print_digits (suc fuel) n =
    let front = print_digits fuel (n / 10) in
    if ltb n 10 then (b'0' + n) ∷ [] else front ++ ((b'0' + n % 10) ∷ [])

abbrev pub max_digits : ℕ
max_digits = 10

pub print_int : ℤ → List ℕ
print_int (pos n) = print_digits max_digits n
print_int (negsuc n) = b'-' ∷ print_digits max_digits (suc n)

pub print_line : ℤ → List ℕ
print_line n = print_int n ++ (b'\n' ∷ [])

abbrev pub is_digit : ℕ → Bool
is_digit c = leb b'0' c && leb c b'9'

abbrev pub is_space : ℕ → Bool
is_space c = leb 9 c && leb c 13 || (c == b' ' || c == 160)

-- The digits up to the first other byte. `none` is a read behind the memory, where no such byte is.
pub scan_digits : ℕ → List ℕ → Option ℕ
scan_digits n [] = none
scan_digits n (c ∷ str) =
    let more = scan_digits (n * 10 + (c - b'0')) str in if is_digit c then more else some n

-- The number that is stored in an int.
abbrev pub int_of : Bool → ℕ → ℤ
int_of negative n = signed32 (if negative then u32 (2 ^ 32 - u32 n) else u32 n)

-- `some none` is that nothing is converted.
unfoldable pub scan_number : Bool → List ℕ → Option (Option ℤ)
scan_number negative [] = none
scan_number negative (c ∷ str) =
    if is_digit c
    then (do n ← scan_digits (c - b'0') str; some (some (int_of negative n)))
    else some none

unfoldable pub scan_int : List ℕ → Option (Option ℤ)
scan_int [] = none
scan_int (c ∷ str) =
    let later = scan_int str in
    if is_space c
    then later
    else if c == b'-'
    then scan_number true str
    else scan_number false (c ∷ str)
