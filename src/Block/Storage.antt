-- ===== src/Block/Storage.antt =====
-- block_dev/sbd.c: the device behaves as a disk under sbd_transfer.
use kernel_examples.Prelude.{
  ℕ, ◌+◌, ◌*◌, ◌%◌, ◌^◌, ◌≤◌, ◌<◌, ◌≡◌, ◌⊎◌, refl, arith, Bool, true, false, none, some, List,
  length, get_elem?, blit, slice, length-blit, length-slice, slice-blit, ltb,
  get_elem?-blit_outside, lt→leb, le→ltb, Bool-cases, inl, inr, ◌∙◌, leb, ltb→lt, ltb→le,
}
use kernel_examples.Block.{Device, transfer}
use kernel_examples.Block.Transfer.{
  IsValid, IsSane, transfer_past_end, transfer_write_lem, transfer_read_lem, byte_count_exact,
}

-- On a well-formed device, a transfer that no 64-bit sum wraps on and whose buffer holds its range
-- never touches memory outside the device or the buffer: it gives a device that is as large and as
-- well formed as before, with every byte outside its sectors as it was, and a buffer of the same
-- length.
transfer_total :
    {lbs sector nsect : ℕ} {buffer : List ℕ} (dev : Device) (write : Bool)
    → IsSane lbs sector nsect buffer
    → IsValid dev
    → (dev' : Device) × (filled : List ℕ) × (transfer lbs dev sector nsect buffer write
        ≡ some (dev', filled))
      × IsValid dev'
      × (dev'.size ≡ dev.size)
      × (length filled ≡ length buffer)
      × ((i : ℕ)
          → (i < sector * lbs) ⊎ (sector * lbs + nsect * lbs ≤ i)
          → get_elem? dev'.bytes i ≡ get_elem? dev.bytes i)
transfer_total {lbs} {sector} {nsect} {buffer} dev write sane valid =
    elim (Bool-cases (ltb dev.size (sector * lbs + nsect * lbs))) [
      | inl past ↦ (
        dev,
        buffer,
        transfer_past_end dev sane write (ltb→lt _ _ past),
        valid,
        refl,
        refl,
        λ i outside. refl,
      )
      | inr fits ↦ inside write (ltb→le _ _ fits)
    ]
  where
    inside :
        (write : Bool)
        → sector * lbs + nsect * lbs ≤ dev.size
        → (dev' : Device) × (filled : List ℕ) × (transfer lbs dev sector nsect buffer write
            ≡ some (dev', filled))
          × IsValid dev'
          × (dev'.size ≡ dev.size)
          × (length filled ≡ length buffer)
          × ((i : ℕ)
              → (i < sector * lbs) ⊎ (sector * lbs + nsect * lbs ≤ i)
              → get_elem? dev'.bytes i ≡ get_elem? dev.bytes i)
    inside true h = (
      _,
      _,
      transfer_write_lem dev sane valid h,
      record { sized = length-blit _ _ _ ∙ valid.sized; small = valid.small },
      refl,
      refl,
      λ i outside.
          get_elem?-blit_outside dev.bytes (sector * lbs) (slice 0 (nsect * lbs) buffer) i
            (omega (arith, length-slice 0 (nsect * lbs) buffer (omega (arith, sane.room)))),
    )
    inside false h = (
      _,
      _,
      transfer_read_lem dev sane valid h,
      valid,
      refl,
      length-blit _ 0 _,
      λ i outside. refl,
    )

-- On a well-formed device, what is written to a range of sectors inside it is read back from it, if
-- the buffers hold the range and no 64-bit sum wraps.
transfer_readback :
    {lbs sector nsect : ℕ} {buffer buffer' : List ℕ} (dev : Device)
    → IsSane lbs sector nsect buffer
    → IsSane lbs sector nsect buffer'
    → IsValid dev
    → sector * lbs + nsect * lbs ≤ dev.size
    → (dev' : Device) × (filled : List ℕ) × (transfer lbs dev sector nsect buffer true
        ≡ some (dev', buffer))
      × (transfer lbs dev' sector nsect buffer' false ≡ some (dev', filled))
      × (slice 0 (nsect * lbs) filled ≡ slice 0 (nsect * lbs) buffer)
transfer_readback {lbs} {sector} {nsect} {buffer} {buffer'} dev sane sane' valid h = (
  written,
  blit buffer' 0 (slice (sector * lbs) (nsect * lbs) written.bytes),
  transfer_write_lem dev sane valid h,
  transfer_read_lem written sane'
      (record { sized = length-blit _ _ _ ∙ valid.sized; small = valid.small }) h,
  slice-blit (nsect * lbs) buffer' 0 taken length-taken (omega (arith, sane'.room))
      ∙ slice-blit (nsect * lbs) dev.bytes (sector * lbs) given length-given
          (omega (arith, valid.sized)),
)
  where
    given : List ℕ
    given = slice 0 (nsect * lbs) buffer

    length-given : length given ≡ nsect * lbs
    length-given = length-slice 0 (nsect * lbs) buffer (omega (arith, sane.room))

    taken : List ℕ
    taken = slice (sector * lbs) (nsect * lbs) (blit dev.bytes (sector * lbs) given)

    length-taken : length taken ≡ nsect * lbs
    length-taken =
        length-slice (sector * lbs) (nsect * lbs) _
          (omega (arith, length-blit dev.bytes (sector * lbs) given, valid.sized))

    written : Device
    written = record dev { bytes = blit dev.bytes (sector * lbs) (slice 0 (nsect * lbs) buffer) }

-- The test adds in 64 bits. Where the end of the range wraps round to a number inside the device,
-- the transfer is let through and runs outside the device.
transfer_wraps :
    (lbs sector nsect : ℕ) (buffer : List ℕ) (dev : Device) (write : Bool)
    → IsValid dev
    → lbs < 2 ^ 31
    → sector * lbs < 2 ^ 64
    → nsect * lbs < 2 ^ 64
    → 2 ^ 64 ≤ sector * lbs + nsect * lbs
    → sector * lbs + nsect * lbs ≤ 2 ^ 64 + dev.size
    → transfer lbs dev sector nsect buffer write ≡ none
unfolding transfer
transfer_wraps lbs sector nsect buffer dev true valid small h k over under = rw (
  byte_count_exact lbs sector small h,
  byte_count_exact lbs nsect small k,
  le→ltb dev.size ((sector * lbs + nsect * lbs) % 2 ^ 64) (omega arith),
  lt→leb (sector * lbs + nsect * lbs) (length dev.bytes) (omega arith),
)
transfer_wraps lbs sector nsect buffer dev false valid small h k over under =
    rw
      (
        byte_count_exact lbs sector small h,
        byte_count_exact lbs nsect small k,
        le→ltb dev.size ((sector * lbs + nsect * lbs) % 2 ^ 64) (omega arith),
        lt→leb (sector * lbs + nsect * lbs) (length dev.bytes) (omega arith),
      )
      (elim (Bool-cases (leb (0 + nsect * lbs) (length buffer))) [
        | inl room ↦ rw room
        | inr short ↦ rw short
      ])
