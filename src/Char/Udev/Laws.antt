-- ===== src/Char/Udev/Laws.antt =====
-- char_dev/mydynamic_udev.c: what my_read and my_write do with the position inside the buffer.
use native.Mathlib.Nat.{mod-eq_of_lt}
use kernel_examples.Prelude.{
  ℕ, ◌+◌, ◌-◌, ◌^◌, ◌≤◌, ◌≡◌, arith, some, List, [], ◌++◌, map, length, take, slice, replicate,
  blit, le→leb, ◌==◌, if◌then◌else◌, false, Bool-cases, inl, inr, length-append, length-take,
  length-replicate, take_exact,
}
use kernel_examples.Prelude.Int.{pos}
use kernel_examples.Kernel.{extend32_small, signed32_small, fail, enospc}
use kernel_examples.Char.Buffer.{Open, Reply, IsInside, room, bytes_to_do-eq-room, copied_exact}
use kernel_examples.Char.Case.{convert_char, convert-blit_exact}
use kernel_examples.Char.Udev.{my_read, my_write}

-- What a call returns at the end of the buffer, or when nothing is asked for.
abbrev pub refused : Open → Reply
refused o = record { ret = fail enospc; delivered = []; after = o }

module _ (page_size : ℕ) (left : ℕ → ℕ) (fair : (n : ℕ) → left n ≤ n) where
  -- The bytes that a call moves: what there is room for, less what the copy misses.
  abbrev pub moved : Open → ℕ → ℕ
  moved o lbuf = room page_size o.pos lbuf - left (room page_size o.pos lbuf)

  abbrev pub read_reply : Open → ℕ → Reply
  read_reply o lbuf = record {
    ret = pos (moved o lbuf);
    delivered = take (moved o lbuf) (slice o.pos (room page_size o.pos lbuf) o.kbuf);
    after = record o { pos = o.pos + moved o lbuf };
  }

  abbrev pub write_reply : ℕ → Open → List ℕ → Reply
  write_reply minor o buf = record {
    ret = pos (moved o (length buf));
    delivered = [];
    after = record {
      kbuf = blit o.kbuf o.pos (
          map (convert_char minor) (take (moved o (length buf)) buf)
          ++ replicate (left (room page_size o.pos (length buf))) 0);
      pos = o.pos + moved o (length buf);
    };
  }

  read_some :
      (lbuf : ℕ) (o : Open)
      → IsInside page_size lbuf o
      → (room page_size o.pos lbuf == 0) ≡ false
      → my_read page_size left o lbuf ≡ some (read_reply o lbuf)
  unfolding my_read
  read_some lbuf o inside some_room =
      let n = room page_size o.pos lbuf in
      rw (
        bytes_to_do-eq-room page_size lbuf o inside,
        extend32_small n (omega arith),
        copied_exact n (left n) (omega arith) (fair n),
        signed32_small (n - left n) (omega arith),
        extend32_small (n - left n) (omega arith),
        mod-eq_of_lt {n = o.pos + (n - left n)} {m = 2 ^ 64} (omega arith),
        some_room,
        le→leb (o.pos + n) (length o.kbuf) (omega (arith, inside.sized)),
      )

  -- With the position inside the buffer my_read never reads outside it. Where there is room it
  -- delivers the bytes at the position, as many as were copied, returns their number and moves the
  -- position on by it; where there is none it returns -ENOSPC and changes nothing.
  pub my_read_lem :
      (lbuf : ℕ) (o : Open)
      → IsInside page_size lbuf o
      → my_read page_size left o lbuf
        ≡ some (if room page_size o.pos lbuf == 0 then refused o else read_reply o lbuf)
  unfolding my_read
  my_read_lem lbuf o inside = elim (Bool-cases (room page_size o.pos lbuf == 0)) [
    | inl full ↦ rw (bytes_to_do-eq-room page_size lbuf o inside, full)
    | inr more ↦ rw more (read_some lbuf o inside more)
  ]

  -- What my_write copies in: the user's bytes, and zeros for those that were missed.
  abbrev front : Open → List ℕ → List ℕ
  front o buf = take (moved o (length buf)) buf

  abbrev back : Open → List ℕ → List ℕ
  back o buf = replicate (left (room page_size o.pos (length buf))) 0

  length-front : (o : Open) (buf : List ℕ) → length (front o buf) ≡ moved o (length buf)
  length-front o buf = omega (arith, length-take (moved o (length buf)) buf)

  length-front-back :
      (o : Open) (buf : List ℕ)
      → length (front o buf ++ back o buf) ≡ room page_size o.pos (length buf)
  length-front-back o buf = omega (
    arith,
    length-append (front o buf) (back o buf),
    length-front o buf,
    length-replicate {A = ℕ} (left (room page_size o.pos (length buf))) 0,
    fair (room page_size o.pos (length buf)),
  )

  write_some :
      (minor : ℕ) (buf : List ℕ) (o : Open)
      → IsInside page_size (length buf) o
      → (room page_size o.pos (length buf) == 0) ≡ false
      → my_write page_size left minor o buf ≡ some (write_reply minor o buf)
  unfolding my_write
  write_some minor buf o inside some_room =
      let n = room page_size o.pos (length buf) in
      rw (
        bytes_to_do-eq-room page_size (length buf) o inside,
        extend32_small n (omega arith),
        copied_exact n (left n) (omega arith) (fair n),
        signed32_small (n - left n) (omega arith),
        extend32_small (n - left n) (omega arith),
        mod-eq_of_lt {n = o.pos + (n - left n)} {m = 2 ^ 64} (omega arith),
        some_room,
        le→leb (o.pos + n) (length o.kbuf) (omega (arith, inside.sized)),
        le→leb (0 + n) (length (front o buf ++ back o buf))
            (omega (arith, length-front-back o buf)),
        take_exact n (front o buf ++ back o buf) (length-front-back o buf),
        convert-blit_exact (n - left n) o.kbuf o.pos (front o buf) (back o buf) minor
            (length-front o buf),
      )

  -- With the position inside the buffer my_write writes inside it alone. Where there is room it stores the bytes of the user at
  -- the position, converted as the minor number says, with zeros for those that were not copied; it
  -- returns how many were, and moves the position on by that. Otherwise it returns -ENOSPC and
  -- changes nothing.
  pub my_write_lem :
      (minor : ℕ) (buf : List ℕ) (o : Open)
      → IsInside page_size (length buf) o
      → my_write page_size left minor o buf
        ≡ some
            (if room page_size o.pos (length buf) == 0 then refused o else write_reply minor o buf)
  unfolding my_write
  my_write_lem minor buf o inside = elim (Bool-cases (room page_size o.pos (length buf) == 0)) [
    | inl full ↦ rw (bytes_to_do-eq-room page_size (length buf) o inside, full)
    | inr more ↦ rw more (write_some minor buf o inside more)
  ]
