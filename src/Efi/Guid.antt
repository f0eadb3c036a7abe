-- ===== src/Efi/Guid.antt =====
-- kprobes/efi_reboot_monitor.c: set_guid, which prints a GUID into an array of 37 bytes.
-- A GUID is the function from an index to a byte of `vendor->b`, which has 16.
pub mod Laws
use kernel_examples.Prelude.{
  ℕ, zero, suc, ◌+◌, ◌-◌, ◌/◌, ◌%◌, Option, none, some, List, [], ◌∷◌, ◌++◌, replicate, ltb, leb,
  ◌&&◌, blit, hex, if◌then◌else◌, ◌>>=◌,
}

abbrev pub guid_size : ℕ
guid_size = 37

-- The array and `cnt`.
abbrev pub Cursor : Type 0
Cursor = List ℕ × ℕ

-- `sprintf(&vendor_guid[cnt], "%02x", vendor->b[i])`, which ends with a zero byte, and `cnt + 2`.
-- `none` is a read outside the GUID or a write outside the array.
print_byte : (ℕ → ℕ) → ℕ → Cursor → Option Cursor
print_byte b i (vendor_guid, cnt) =
    if ltb i 16 && leb (cnt + 3) guid_size
    then some (blit vendor_guid cnt (hex (b i) ++ (0 ∷ [])), cnt + 2)
    else none

-- `vendor_guid[cnt] = '-'; cnt++`
print_dash : Cursor → Option Cursor
print_dash (vendor_guid, cnt) =
    if ltb cnt guid_size then some (blit vendor_guid cnt (b'-' ∷ []), cnt + 1) else none

-- The loops down from `i` and up from `i`, of so many rounds.
print_down : (ℕ → ℕ) → ℕ → ℕ → Cursor → Option Cursor
unfolding print_byte
print_down b zero i at = some at
print_down b (suc rounds) i at = print_byte b i at >>= print_down b rounds (i - 1)

print_up : (ℕ → ℕ) → ℕ → ℕ → Cursor → Option Cursor
unfolding print_byte
print_up b zero i at = some at
print_up b (suc rounds) i at = print_byte b i at >>= print_up b rounds (i + 1)

pub set_guid : (ℕ → ℕ) → Option (List ℕ)
unfolding print_down print_up print_dash
set_guid b = do
  at ← print_down b 4 3 (replicate guid_size 0, 0)
  at ← print_dash at
  at ← print_down b 2 5 at
  at ← print_dash at
  at ← print_down b 2 7 at
  at ← print_dash at
  at ← print_up b 2 8 at
  at ← print_dash at
  at ← print_up b 6 10 at
  some at.0
