-- ===== src/Char/Seek.antt =====
-- char_dev/mychar.c and char_dev/mydynamic.c: my_lseek and mycdrv_lseek, which are the same code.
-- A loff_t is its 64-bit pattern. KBUF_SIZE is unsigned in both files (PAGE_SIZE is an unsigned
-- long, and mydynamic.c casts to size_t), so `testpos < KBUF_SIZE` compares unsigned numbers.
pub mod Laws
use kernel_examples.Prelude.{ℕ, ◌+◌, ◌^◌, Option, none, some, ltb, ◌==◌, if◌then◌else◌}
use kernel_examples.Prelude.Int.{ℤ, pos}
use kernel_examples.Kernel.{u64, fail, einval}
use kernel_examples.Char.Buffer.{kbuf_size}

-- The `switch` on `orig`; `none` is its default.
unfoldable pub target : ℕ → ℕ → ℕ → ℕ → Option ℕ
target page_size f_pos offset orig =
    if orig == 0
    then some offset
    else if orig == 1
    then some (u64 (f_pos + offset))
    else if orig == 2
    then some (u64 (kbuf_size page_size + offset))
    else none

-- The two conditional expressions.
pub clamp : ℕ → ℕ → ℕ
clamp page_size testpos =
    let capped = if ltb testpos (kbuf_size page_size) then testpos else kbuf_size page_size in
    if ltb capped (2 ^ 63) then capped else 0

-- What the call returns, and the new position.
pub my_lseek : ℕ → ℕ → ℕ → ℕ → ℤ × ℕ
unfolding target clamp
my_lseek page_size f_pos offset orig = elim (target page_size f_pos offset orig) [
  | none ↦ (fail einval, f_pos)
  | some testpos ↦ (pos (clamp page_size testpos), clamp page_size testpos)
]
