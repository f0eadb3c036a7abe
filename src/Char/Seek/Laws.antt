-- ===== src/Char/Seek/Laws.antt =====
-- char_dev: where a seek ends.
use kernel_examples.Prelude.{
  ℕ, ◌^◌, ◌≤◌, ◌<◌, ◌≡◌, ◌+◌, ◌-◌, arith, min, ltb, leb, ◌==◌, if◌then◌else◌,
}
use kernel_examples.Prelude.Int.{ℤ, pos}
use kernel_examples.Kernel.{fail, einval}
use kernel_examples.Char.Buffer.{kbuf_size}
use kernel_examples.Char.Seek.{target, my_lseek}

-- The place that a seek by a signed distance from `base` comes to: the distance is `offset` or, as
-- the pattern of a negative number, 2 ^ 64 - offset towards the start. What lies before the start of
-- the file or past the buffer's end comes to the buffer's end.
abbrev pub moved : ℕ → ℕ → ℕ → ℕ
moved size base offset =
    if ltb offset (2 ^ 63)
    then min (base + offset) size
    else if leb (2 ^ 64 - offset) base
    then min (base - (2 ^ 64 - offset)) size
    else size

abbrev pub SeekEnds : (page_size f_pos offset orig : ℕ) → ℤ × ℕ → Type 0
SeekEnds page_size f_pos offset orig r =
    let size = kbuf_size page_size in
    r ≡ (
      if orig == 0
      then (pos (moved size 0 offset), moved size 0 offset)
      else if orig == 1
      then (pos (moved size f_pos offset), moved size f_pos offset)
      else if orig == 2
      then (pos (moved size size offset), moved size size offset)
      else (fail einval, f_pos))

-- The position and the size of the buffer are below 2 ^ 62, and the offset is any 64-bit pattern. A
-- seek from the start, from the position or from the buffer's end moves from there by the offset, as a
-- signed number, and ends inside the buffer: what would lie past its end is cut to it, and what would
-- lie before the start of the file ends at the buffer's end, too, since the test against the size is
-- unsigned. Any other origin returns -EINVAL and keeps the position.
pub my_lseek_lem :
    (page_size f_pos offset orig : ℕ)
    → kbuf_size page_size < 2 ^ 62
    → f_pos < 2 ^ 62
    → offset < 2 ^ 64
    → SeekEnds page_size f_pos offset orig (my_lseek page_size f_pos offset orig)
unfolding my_lseek target
my_lseek_lem page_size f_pos offset orig small near pattern = ground arith

pub my_lseek-le :
    (page_size f_pos offset orig : ℕ)
    → f_pos ≤ kbuf_size page_size
    → (my_lseek page_size f_pos offset orig).1 ≤ kbuf_size page_size
unfolding my_lseek
my_lseek-le page_size f_pos offset orig within = ground arith
