-- ===== src/Memory/Dump/Lines.antt =====
-- memory/kmalloc_rand.c: the form of a dump, apart from how hex_dump makes it.
use kernel_examples.Prelude.{ℕ, zero, suc, ◌+◌, Bool, List, [], ◌∷◌, ◌++◌, map, take, drop, hex}
use kernel_examples.Memory.Dump.{offset_text, blank, shown}

-- Cells of three characters, one for each byte, and blanks where there is none.
unfoldable pub cells : ℕ → List ℕ → List ℕ
cells zero bytes = []
cells (suc count) [] = blank ++ cells count []
cells (suc count) (b ∷ bytes) = (hex b ++ (b' ' ∷ [])) ++ cells count bytes

module _ (isprint : ℕ → Bool) where
  unfoldable pub characters : ℕ → List ℕ → List ℕ
  characters count bytes = map (shown isprint) (take count bytes)

  -- The line of the 16 bytes at an offset.
  unfoldable pub line_of : ℕ → List ℕ → List ℕ
  line_of offset bytes =
      offset_text offset ++ (cells 16 bytes ++ (b' ' ∷ b'|' ∷ (characters 16 bytes ++ (b'|' ∷ []))))

  -- So many lines, from an offset on.
  unfoldable pub lines : ℕ → ℕ → List ℕ → List (List ℕ)
  lines zero offset bytes = []
  lines (suc count) offset bytes = line_of offset bytes ∷ lines count (offset + 16) (drop 16 bytes)
