-- ===== src/Char/Count.antt =====
-- char_dev: open and release of the three drivers. Two of them count the opens in an int, a 32-bit
-- word here; what they print is left out.
use kernel_examples.Prelude.{ℕ, zero, suc, ◌+◌, ◌^◌, ◌<◌, ◌≡◌, arith}
use kernel_examples.Prelude.Int.{ℤ, pos}
use kernel_examples.Kernel.{u32}

-- What is returned, and `counter`.
pub udev_open : ℕ → ℤ × ℕ
udev_open counter = (pos 0, u32 (counter + 1))

pub dynamic_open : ℕ → ℤ × ℕ
dynamic_open counter = (pos 0, u32 (counter + 1))

pub mychar_open : ℤ
mychar_open = pos 0

pub udev_release : ℤ
udev_release = pos 0

pub dynamic_release : ℤ
dynamic_release = pos 0

pub mychar_release : ℤ
mychar_release = pos 0

opens : (ℕ → ℤ × ℕ) → ℕ → ℕ → ℕ
opens open_ zero counter = counter
opens open_ (suc n) counter = opens open_ n (open_ counter).1

-- The counters count the opens, as 32-bit words.
opens_count : (n counter : ℕ) → counter < 2 ^ 32 → opens udev_open n counter ≡ u32 (counter + n)
unfolding opens udev_open
opens_count zero counter h = omega arith
opens_count (suc n) counter h =
    let later = opens_count n (u32 (counter + 1)) (omega arith) in omega arith
