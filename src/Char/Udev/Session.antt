-- ===== src/Char/Udev/Session.antt =====
-- char_dev/mydynamic_udev.c: a read after a write, and calls with the position past the buffer.
use native.Mathlib.Nat.{sub-zero}
use kernel_examples.Prelude.{
  ℕ, ◌+◌, ◌-◌, ◌^◌, ◌<◌, ◌≤◌, ◌%◌, ◌≡◌, ◌≢◌, leb, refl, Option, ==→eq, ==→ne, Bool-cases, inl, inr,
  if◌then◌else◌, arith, none, some, List, [], ◌++◌, append-nil, map, length, take, slice, blit,
  slice-blit, length-blit, length-map, length-take, take_exact, lt→leb, ne→==, ◌==◌, false, ◌∙◌,
}
use kernel_examples.Kernel.{extend32_small, fail, enospc}
use kernel_examples.Char.Buffer.{
  Open, Reply, kbuf_size, IsInside, room, bytes_to_do, bytes_to_do_past,
}
use kernel_examples.Char.Case.{convert_char}
use kernel_examples.Char.Udev.{my_read, my_write}
use kernel_examples.Char.Udev.Laws.{my_read_lem, my_write_lem, write_reply}

-- Nothing is missed.
abbrev pub whole : ℕ → ℕ
whole n = 0

-- With the position inside a buffer that has room left: bytes that were written whole are read back from where they went, converted as the minor number
-- says; the read returns what the write returned, and leaves what the write left.
my_read-my_write :
    (page_size minor : ℕ) (buf : List ℕ) (o : Open)
    → IsInside page_size (length buf) o
    → room page_size o.pos (length buf) ≢ 0
    → (r : Reply) × (my_write page_size whole minor o buf ≡ some r)
      × (my_read page_size whole (record { kbuf = r.after.kbuf; pos = o.pos }) (length buf)
          ≡ some (record {
            ret = r.ret;
            delivered = map (convert_char minor) (take (room page_size o.pos (length buf)) buf);
            after = r.after;
          }))
my_read-my_write page_size minor buf o inside more = (
  r,
  my_write_lem page_size whole (λ k. omega arith) minor buf o inside ∙ rw some_room,
  my_read_lem page_size whole (λ k. omega arith) (length buf)
        (record { kbuf = r.after.kbuf; pos = o.pos }) inside'
      ∙ rw (some_room, read_eq),
)
  where
    n : ℕ
    n = room page_size o.pos (length buf)

    r : Reply
    r = write_reply page_size whole (λ k. omega arith) minor o buf

    some_room : (n == 0) ≡ false
    some_room = ne→== n 0 more

    inside' : IsInside page_size (length buf) (record { kbuf = r.after.kbuf; pos = o.pos })
    inside' = record {
      sized = length-blit o.kbuf o.pos _ ∙ inside.sized;
      small = inside.small;
      within = inside.within;
      capped = inside.capped;
    }

    stored : List ℕ
    stored = map (convert_char minor) (take n buf)

    length-stored : length stored ≡ n
    length-stored = omega (arith, length-map (take n buf) (convert_char minor), length-take n buf)

    read_eq :
        take
          (n - 0)
          (slice o.pos n (blit o.kbuf o.pos (map (convert_char minor) (take (n - 0) buf) ++ [])))
        ≡ stored
    read_eq =
        rw
          (
            sub-zero,
            append-nil,
            slice-blit n o.kbuf o.pos stored length-stored (omega (arith, inside.sized)),
          )
          (take_exact n stored length-stored)

-- A call that moves nothing.
abbrev pub no_space : Open → Reply
no_space o = record { ret = fail enospc; delivered = []; after = o }

-- How a call ends with the position so many bytes past the buffer.
abbrev pub PastEnds : ℕ → Open → Option Reply → Type 0
PastEnds distance o r = r ≡ (if distance % 2 ^ 32 == 0 then some (no_space o) else none)

-- On a buffer of the right size, with the position anywhere past it in a loff_t, for a call of at least
-- one byte and less than 2 ^ 31: the call returns -ENOSPC and moves nothing where the position is a
-- multiple of 2 ^ 32 bytes past the end of the buffer, and at every other position it runs outside it.
pub past_end_faults :
    (page_size minor : ℕ) (left : ℕ → ℕ) (o : Open) (buf : List ℕ)
    → length o.kbuf ≡ kbuf_size page_size
    → kbuf_size page_size < 2 ^ 31
    → kbuf_size page_size < o.pos
    → o.pos < 2 ^ 63
    → 0 < length buf
    → length buf < 2 ^ 31
    → PastEnds (o.pos - kbuf_size page_size) o (my_read page_size left o (length buf))
      × PastEnds (o.pos - kbuf_size page_size) o (my_write page_size left minor o buf)
unfolding my_read my_write
past_end_faults page_size minor left o buf sized small past long_ some_bytes capped =
    let size = kbuf_size page_size in
    let todo = bytes_to_do size o.pos (length buf) in
    let (nothing_, something) =
      bytes_to_do_past size o.pos (length buf) small past long_ some_bytes capped in
    let outside : (1 ≤ todo) × (todo ≤ length buf) → leb (o.pos + todo) (length o.kbuf) ≡ false =
      λ h. lt→leb (o.pos + todo) (length o.kbuf) (omega (arith, h.0)) in
    elim (Bool-cases ((o.pos - size) % 2 ^ 32 == 0)) [
      | inl on ↦ let e = nothing_ (==→eq _ _ on) in (rw (on, e) refl, rw (on, e) refl)
      | inr off ↦
          let h = something (==→ne _ _ off) in
          let small_todo = extend32_small todo (omega (arith, h.1)) in
          let some_todo = ne→== todo 0 (omega (arith, h.0)) in
          (
            rw (off, small_todo, some_todo, outside h) refl,
            rw (off, small_todo, some_todo, outside h) refl,
          )
    ]
