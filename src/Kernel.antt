-- ===== src/Kernel.antt =====
-- What every driver of the repository shares: return codes, machine words and the ledger of the
-- kernel objects that a module holds. The kernel itself is not modelled: a call of it that can
-- fail is an argument, and one that creates or destroys an object is an entry in the ledger.
mod Objects
mod Laws
pub use Objects.*
unfoldable pub use Objects.{acquire, acquire_all}
pub use Laws.*
use kernel_examples.Prelude.{
  ℕ, ◌+◌, ◌-◌, ◌%◌, ◌^◌, ◌<◌, ◌≤◌, ◌≡◌, ltb, lt→ltb, le→ltb, lt→leb, if◌then◌else◌,
}
use kernel_examples.Prelude.Int.{ℤ, pos, negsuc, sub_ℕ}

-- The word of an `unsigned long`, of a `size_t` and of a `sector_t`.
abbrev pub u64 : ℕ → ℕ
u64 n = n % 2 ^ 64

abbrev pub u32 : ℕ → ℕ
u32 n = n % 2 ^ 32

-- The number that a 32-bit pattern stands for as an `int`.
unfoldable pub signed32 : ℕ → ℤ
signed32 w = if ltb w (2 ^ 31) then pos w else sub_ℕ w (2 ^ 32)

-- An `int` pattern converted to an `unsigned long`: the sign bit is carried up.
unfoldable pub extend32 : ℕ → ℕ
extend32 w = if ltb w (2 ^ 31) then w else w + 2 ^ 64 - 2 ^ 32

pub signed32_small : (w : ℕ) → w < 2 ^ 31 → signed32 w ≡ pos w
unfolding signed32
signed32_small w h = rw (lt→ltb w (2 ^ 31) h)

pub signed32_large : (w : ℕ) → 2 ^ 31 ≤ w → w < 2 ^ 32 → signed32 w ≡ negsuc (2 ^ 32 - w - 1)
unfolding signed32
signed32_large w h k = rw (le→ltb w (2 ^ 31) h, lt→leb (2 ^ 32) w k)

pub extend32_small : (w : ℕ) → w < 2 ^ 31 → extend32 w ≡ w
unfolding extend32
extend32_small w h = rw (lt→ltb w (2 ^ 31) h)

-- A negative return code.
abbrev pub fail : ℕ → ℤ
fail e = sub_ℕ 0 e

abbrev pub enomem : ℕ
enomem = 12

abbrev pub efault : ℕ
efault = 14

abbrev pub ebusy : ℕ
ebusy = 16

abbrev pub einval : ℕ
einval = 22

abbrev pub enospc : ℕ
enospc = 28
