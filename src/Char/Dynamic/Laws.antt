-- ===== src/Char/Dynamic/Laws.antt =====
-- char_dev/mydynamic.c: what mycdrv_read and mycdrv_write do with the position inside the buffer.
use native.Mathlib.Nat.{mod-eq_of_lt}
use kernel_examples.Prelude.{
  ℕ, ◌+◌, ◌-◌, ◌^◌, ◌≤◌, ◌≡◌, arith, some, List, [], ◌++◌, length, take, slice, replicate, blit,
  length-append, length-take, length-replicate, take_exact, le→leb,
}
use kernel_examples.Prelude.Int.{pos}
use kernel_examples.Kernel.{extend32_small, signed32_small}
use kernel_examples.Char.Buffer.{Open, IsInside, room, bytes_to_do-eq-room, copied_exact}
use kernel_examples.Char.Dynamic.{mycdrv_read, mycdrv_write}

module _ (page_size : ℕ) (left : ℕ → ℕ) (fair : (n : ℕ) → left n ≤ n) where
  abbrev pub moved : Open → ℕ → ℕ
  moved o lbuf = room page_size o.pos lbuf - left (room page_size o.pos lbuf)

  -- With the position inside the buffer mycdrv_read stays inside it: it delivers the bytes at the
  -- position, as many as there are and were copied, and moves the position on by their number,
  -- which it returns. At the end of the buffer that number is 0.
  pub mycdrv_read_lem :
      (lbuf : ℕ) (o : Open)
      → IsInside page_size lbuf o
      → mycdrv_read page_size left o lbuf
        ≡ some (record {
          ret = pos (moved o lbuf);
          delivered = take (moved o lbuf) (slice o.pos (room page_size o.pos lbuf) o.kbuf);
          after = record o { pos = o.pos + moved o lbuf };
        })
  unfolding mycdrv_read
  mycdrv_read_lem lbuf o inside =
      let n = room page_size o.pos lbuf in
      rw (
        bytes_to_do-eq-room page_size lbuf o inside,
        extend32_small n (omega arith),
        copied_exact n (left n) (omega arith) (fair n),
        signed32_small (n - left n) (omega arith),
        extend32_small (n - left n) (omega arith),
        mod-eq_of_lt {n = o.pos + (n - left n)} {m = 2 ^ 64} (omega arith),
        le→leb (o.pos + n) (length o.kbuf) (omega (arith, inside.sized)),
      )

  -- What goes in: the user's bytes, and zeros for those that were missed.
  abbrev pub incoming : Open → List ℕ → List ℕ
  incoming o buf =
      take (moved o (length buf)) buf ++ replicate (left (room page_size o.pos (length buf))) 0

  length-incoming :
      (o : Open) (buf : List ℕ) → length (incoming o buf) ≡ room page_size o.pos (length buf)
  length-incoming o buf =
      let n = room page_size o.pos (length buf) in
      omega (
        arith,
        length-append (take (moved o (length buf)) buf) (replicate (left n) 0),
        length-take (moved o (length buf)) buf,
        length-replicate {A = ℕ} (left n) 0,
        fair n,
      )

  -- With the position inside the buffer mycdrv_write writes inside it alone: it stores the user's
  -- bytes at the position, as many as there is room for, with zeros for those that were not copied,
  -- and moves the position on by the number that were, which it returns.
  pub mycdrv_write_lem :
      (buf : List ℕ) (o : Open)
      → IsInside page_size (length buf) o
      → mycdrv_write page_size left o buf
        ≡ some (record {
          ret = pos (moved o (length buf));
          delivered = [];
          after = record {
            kbuf = blit o.kbuf o.pos (incoming o buf);
            pos = o.pos + moved o (length buf);
          };
        })
  unfolding mycdrv_write
  mycdrv_write_lem buf o inside =
      let n = room page_size o.pos (length buf) in
      rw (
        bytes_to_do-eq-room page_size (length buf) o inside,
        extend32_small n (omega arith),
        copied_exact n (left n) (omega arith) (fair n),
        signed32_small (n - left n) (omega arith),
        extend32_small (n - left n) (omega arith),
        mod-eq_of_lt {n = o.pos + (n - left n)} {m = 2 ^ 64} (omega arith),
        le→leb (o.pos + n) (length o.kbuf) (omega (arith, inside.sized)),
        le→leb (0 + n) (length (incoming o buf)) (omega (arith, length-incoming o buf)),
        take_exact n (incoming o buf) (length-incoming o buf),
      )
