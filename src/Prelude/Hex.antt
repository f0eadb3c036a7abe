-- ===== src/Prelude/Hex.antt =====
-- Two hexadecimal digits for a byte, as "%02x" prints them, and reading them back.
use Prim.Native.Nat.{ℕ, ◌+◌, ◌-◌, ◌*◌, ◌/◌, ◌%◌, ◌<◌}
use mathlib.Core.Path.{◌≡◌, ap₂, ◌∙◌}
use mathlib.Core.List.{List, [], ◌∷◌}
use native.Mathlib.Omega.{arith}
use kernel_examples.Prelude.Tests.{ltb, if◌then◌else◌}

unfoldable pub hex_digit : ℕ → ℕ
hex_digit d = if ltb d 10 then b'0' + d else b'a' + d - 10

abbrev pub hex : ℕ → List ℕ
hex x = hex_digit (x / 16 % 16) ∷ hex_digit (x % 16) ∷ []

-- The value of a digit.
abbrev pub unhex_digit : ℕ → ℕ
unhex_digit c = if ltb c b'a' then c - b'0' else c + 10 - b'a'

unhex_digit-hex_digit : (d : ℕ) → d < 16 → unhex_digit (hex_digit d) ≡ d
unfolding hex_digit
unhex_digit-hex_digit d h = ground arith

pub unhex-hex :
    (x : ℕ)
    → x < 256
    → unhex_digit (hex_digit (x / 16 % 16)) * 16 + unhex_digit (hex_digit (x % 16)) ≡ x
unhex-hex x h =
    ap₂ (λ hi lo. hi * 16 + lo) (unhex_digit-hex_digit (x / 16 % 16) (omega arith))
      (unhex_digit-hex_digit (x % 16) (omega arith))
    ∙ omega arith
