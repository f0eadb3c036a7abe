-- ===== src/Char/Raw/Laws.antt =====
-- char_dev/mychar.c: when my_read and my_write stay inside the buffer.
use kernel_examples.Prelude.{
  ℕ, ◌+◌, ◌-◌, ◌≤◌, ◌<◌, ◌≡◌, ◌↔◌, arith, none, List, ◌++◌, length, take, replicate, length-append,
  length-take, length-replicate, lt→leb, le→leb, ne→==, some, blit, slice, slice-blit, length-blit,
  take_long, append-nil, ◌∙◌, [], refl,
}
use kernel_examples.Kernel.{u64, extend32, signed32}
use kernel_examples.Char.Buffer.{Open, Reply, copied}
use kernel_examples.Char.Raw.{my_read, my_write}

module _ (left : ℕ → ℕ) (o : Open) where
  -- Bytes that are asked for outside the buffer.
  abbrev pub IsOutside : ℕ → Type 0
  IsOutside lbuf = (0 < lbuf) × (length o.kbuf < o.pos + lbuf)

  read_faults : (lbuf : ℕ) → IsOutside lbuf → my_read left o lbuf ≡ none
  unfolding my_read
  read_faults lbuf h =
      rw (ne→== lbuf 0 (omega (arith, h.0)), lt→leb (o.pos + lbuf) (length o.kbuf) h.1)

  read_stays : (lbuf : ℕ) → my_read left o lbuf ≡ none → IsOutside lbuf
  unfolding my_read
  read_stays lbuf e = (ground arith, ground arith)

  module _ (fair : (n : ℕ) → left n ≤ n) (buf : List ℕ) where
    abbrev source : List ℕ
    source = take (length buf - left (length buf)) buf ++ replicate (left (length buf)) 0

    length-source : length source ≡ length buf
    length-source = omega (
      arith,
      fair (length buf),
      length-append (take (length buf - left (length buf)) buf) (replicate (left (length buf)) 0),
      length-take (length buf - left (length buf)) buf,
      length-replicate {A = ℕ} (left (length buf)) 0,
    )

    write_faults : IsOutside (length buf) → my_write left o buf ≡ none
    unfolding my_write
    write_faults h =
        rw (
          ne→== (length buf) 0 (omega (arith, h.0)),
          lt→leb (o.pos + length buf) (length o.kbuf) h.1,
        )

    write_stays : my_write left o buf ≡ none → IsOutside (length buf)
    unfolding my_write
    write_stays e = (ground (arith, length-source), ground (arith, length-source))

    -- What a write left at its place, where nothing was missed, is read back from there.
    abbrev IsReadBack : Type 0
    IsReadBack =
        (r : Reply) × (back : Reply) × (my_write left o buf ≡ some r)
        × (my_read left (record r.after { pos = o.pos }) (length buf) ≡ some back)
        × (back.delivered ≡ buf)

    source_whole : left (length buf) ≡ 0 → source ≡ buf
    source_whole whole =
        rw whole
          (append-nil (take (length buf - 0) buf) ∙ take_long (length buf - 0) buf (omega arith))

    abbrev nbytes : ℕ
    nbytes = copied (length buf) (left (length buf))

    abbrev stored : List ℕ
    stored = blit o.kbuf o.pos buf

    abbrev written : Reply
    written = record {
      ret = signed32 nbytes;
      delivered = [];
      after = record { kbuf = stored; pos = u64 (o.pos + extend32 nbytes) };
    }

    module _ (whole : left (length buf) ≡ 0) (some_bytes : 0 < length buf)
        (inside : o.pos + length buf ≤ length o.kbuf) where
      wrote : my_write left o buf ≡ some written
      unfolding my_write
      wrote = rw (
        ne→== (length buf) 0 (omega arith),
        source_whole whole,
        le→leb (o.pos + length buf) (length o.kbuf) inside,
        le→leb (0 + length buf) (length buf) (omega arith),
        take_long (length buf) buf (omega arith),
      )

      reads :
          my_read left (record { kbuf = stored; pos = o.pos }) (length buf)
          ≡ some (record {
            ret = signed32 nbytes;
            delivered = take (length buf - left (length buf)) (slice o.pos (length buf) stored);
            after = record { kbuf = stored; pos = u64 (o.pos + extend32 nbytes) };
          })
      unfolding my_read
      reads = rw (
        ne→== (length buf) 0 (omega arith),
        le→leb (o.pos + length buf) (length stored) (omega (arith, length-blit o.kbuf o.pos buf)),
      )

      delivers : take (length buf - left (length buf)) (slice o.pos (length buf) stored) ≡ buf
      delivers =
          rw (whole, slice-blit (length buf) o.kbuf o.pos buf refl inside)
            (take_long (length buf - 0) buf (omega arith))

      read_back : IsReadBack
      read_back = (written, _, wrote, reads, delivers)

  -- mychar.c's read and write run outside the buffer exactly when some byte of those that are asked for
  -- does not lie in it: nothing in them looks at the size of the buffer. Bytes that were written inside
  -- it, with none missed, are read back from where they went.
  pub accesses_fault_iff :
      ((n : ℕ) → left n ≤ n)
      → (buf : List ℕ)
      → ((my_read left o (length buf) ≡ none) ↔ IsOutside (length buf))
        × ((my_write left o buf ≡ none) ↔ IsOutside (length buf))
        × (left (length buf) ≡ 0
            → 0 < length buf
            → o.pos + length buf ≤ length o.kbuf
            → (r : Reply) × (back : Reply) × (my_write left o buf ≡ some r)
              × (my_read left (record r.after { pos = o.pos }) (length buf) ≡ some back)
              × (back.delivered ≡ buf))
  accesses_fault_iff fair buf = (
    (read_stays (length buf), read_faults (length buf)),
    (write_stays fair buf, write_faults fair buf),
    read_back fair buf,
  )
