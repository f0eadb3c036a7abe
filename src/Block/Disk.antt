-- ===== src/Block/Disk.antt =====
-- block_dev/sbd.c: the disk that the device stands for, and one sbd_transfer on it. The disk is a
-- function from a place to the byte there.
pub mod Session
pub mod Apart
pub mod Order
use kernel_examples.Prelude.{
  within, within_cases, get_elem?-copied_inside, get_elem?-copied_outside, ℕ, ◌+◌, ◌*◌, ◌-◌, ◌≤◌,
  ◌<◌, ◌≡◌, refl, ap, ◌∙◌, arith, Bool, true, false, ◌&&◌, Option, none, some, List, length, blit,
  slice, length-blit, length-slice, ltb, leb, if◌then◌else◌, get_elem?, get_elem?-blit_outside,
  get_elem?-blit_inside, get_elem?-take, get_elem?-drop, lt→leb, le→leb, le→ltb, Bool-cases, inl,
  inr, leb→le, leb→lt, ltb→lt, ltb→le, lt→ltb, ◌⊎◌,
}
use kernel_examples.Block.{Device, transfer}
use kernel_examples.Block.Request.{Segment}
use kernel_examples.Block.Transfer.{
  IsValid, IsSane, transfer_past_end, transfer_write_lem, transfer_read_lem,
}

module _ (lbs : ℕ) where
  -- Where the range of a segment begins, and how many bytes it has.
  abbrev pub first_byte : Segment → ℕ
  first_byte s = s.pos * lbs

  abbrev pub bytes_of : Segment → ℕ
  bytes_of s = s.sectors * lbs

  -- The segment ends inside a disk of `size` bytes. One that does not is dropped.
  abbrev pub fits : ℕ → Segment → Bool
  fits size s = leb (first_byte s + bytes_of s) size

  -- What stands at `i` after a segment, where `old` stood before it.
  pub written : ℕ → Segment → ℕ → Option ℕ → Option ℕ
  written size s i old =
      if s.write && (fits size s && within (first_byte s) (bytes_of s) i)
      then get_elem? s.buffer (i - first_byte s)
      else old

  -- What stands at `j` of the buffer after a segment, where the disk holds `disk`.
  pub filled_at : ℕ → Segment → (ℕ → Option ℕ) → ℕ → Option ℕ
  filled_at size s disk j =
      if s.write
      then get_elem? s.buffer j
      else (if fits size s && ltb j (bytes_of s)
          then disk (first_byte s + j)
          else get_elem? s.buffer j)

  abbrev pub IsSaneSegment : Segment → Type 0
  IsSaneSegment s = IsSane lbs s.pos s.sectors s.buffer

-- What a transfer gives: a device of the same size that holds what the segment has written, and a
-- buffer that holds what it has read.
pub record Moves (lbs : ℕ) (dev : Device) (s : Segment) (dev' : Device) (filled : List ℕ)
    : Type 0 where
  pub moved : transfer lbs dev s.pos s.sectors s.buffer s.write ≡ some (dev', filled)
  pub valid : IsValid dev'
  pub same_size : dev'.size ≡ dev.size
  pub disk_after :
      (i : ℕ) → get_elem? dev'.bytes i ≡ written lbs dev.size s i (get_elem? dev.bytes i)
  pub buffer_after : (j : ℕ) → get_elem? filled j ≡ filled_at lbs dev.size s (get_elem? dev.bytes) j

module _ (lbs : ℕ) (s : Segment) (dev : Device) (sane : IsSaneSegment lbs s)
    (valid : IsValid dev) where
  -- A segment that ends behind the disk is dropped.
  past_end-Moves : fits lbs dev.size s ≡ false → Moves lbs dev s dev s.buffer
  unfolding written filled_at
  past_end-Moves h = record {
    moved = transfer_past_end dev sane s.write (leb→lt _ _ h);
    valid = valid;
    same_size = refl;
    disk_after = λ i. elim (Bool-cases s.write) [ inl e ↦ rw (e, h) | inr e ↦ rw e ];
    buffer_after = λ j. elim (Bool-cases s.write) [ inl e ↦ rw e | inr e ↦ rw (e, h) ];
  }

  disk_room : fits lbs dev.size s ≡ true → s.pos * lbs + s.sectors * lbs ≤ length dev.bytes
  disk_room fit = omega (arith, leb→le _ _ fit, valid.sized)

  module _ (fit : fits lbs dev.size s ≡ true) where
    write-Moves :
        s.write ≡ true
        → Moves lbs dev s
            (record dev {
              bytes = blit dev.bytes (s.pos * lbs) (slice 0 (s.sectors * lbs) s.buffer);
            })
            s.buffer
    unfolding written filled_at
    write-Moves e = record {
      moved = rw e (transfer_write_lem dev sane valid (leb→le _ _ fit));
      valid = record { sized = length-blit _ _ _ ∙ valid.sized; small = valid.small };
      same_size = refl;
      disk_after = λ i. elim (within_cases (s.pos * lbs) (s.sectors * lbs) i) [
        | inl (here, above, below) ↦
            rw (e, fit, here)
              (get_elem?-copied_inside dev.bytes (s.pos * lbs) s.buffer 0 (s.sectors * lbs)
                (disk_room fit) (omega (arith, sane.room)) i _ above below (omega arith))
        | inr (there, out) ↦
            rw (e, fit, there)
              (get_elem?-copied_outside dev.bytes (s.pos * lbs) s.buffer 0 (s.sectors * lbs)
                (disk_room fit) (omega (arith, sane.room)) i out)
      ];
      buffer_after = λ j. rw e;
    }

    read-Moves :
        s.write ≡ false
        → Moves lbs dev s dev (blit s.buffer 0 (slice (s.pos * lbs) (s.sectors * lbs) dev.bytes))
    unfolding written filled_at
    read-Moves e = record {
      moved = rw e (transfer_read_lem dev sane valid (leb→le _ _ fit));
      valid = valid;
      same_size = refl;
      disk_after = λ i. rw e;
      buffer_after = λ j. elim (Bool-cases (ltb j (s.sectors * lbs))) [
        | inl here ↦
            rw (e, fit, here)
              (get_elem?-copied_inside s.buffer 0 dev.bytes (s.pos * lbs) (s.sectors * lbs)
                (omega (arith, sane.room)) (disk_room fit) j _ (omega arith)
                (let below : j < s.sectors * lbs = ltb→lt _ _ here in omega arith) (omega arith))
        | inr there ↦
            rw (e, fit, there)
              (get_elem?-copied_outside s.buffer 0 dev.bytes (s.pos * lbs) (s.sectors * lbs)
                (omega (arith, sane.room)) (disk_room fit) j
                (let behind : s.sectors * lbs ≤ j = ltb→le _ _ there in inr (omega arith)))
      ];
    }

  -- Whatever the segment is, the transfer does to the device and the buffer what the segment does
  -- to the disk.
  pub transfer-Moves : (dev' : Device) × (filled : List ℕ) × Moves lbs dev s dev' filled
  transfer-Moves = elim (Bool-cases (fits lbs dev.size s)) [
    | inr out ↦ (_, _, past_end-Moves out)
    | inl fit ↦ elim (Bool-cases s.write) [
      | inl e ↦ (_, _, write-Moves fit e)
      | inr e ↦ (_, _, read-Moves fit e)
    ]
  ]
