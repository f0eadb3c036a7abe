-- ===== src/Char/Dynamic/Session.antt =====
-- char_dev/mydynamic.c: any sequence of calls on an open file.
use kernel_examples.Prelude.{
  ℕ, ◌+◌, ◌^◌, ◌≤◌, ◌<◌, ◌≡◌, refl, ◌∙◌, arith, Option, some, List, [], ◌∷◌, length, length-blit,
  blit, All, ◌>>=◌,
}
use kernel_examples.Char.Buffer.{Open, kbuf_size, IsInside}
use kernel_examples.Char.Dynamic.{mycdrv_read, mycdrv_write}
use kernel_examples.Char.Dynamic.Laws.{moved, incoming, mycdrv_read_lem, mycdrv_write_lem}
use kernel_examples.Char.Seek.{my_lseek}
use kernel_examples.Char.Seek.Laws.{my_lseek-le}

pub data Call : Type 0 where
  read : (lbuf : ℕ) → Call
  write : (buf : List ℕ) → Call
  lseek : (offset orig : ℕ) → Call

abbrev pub asked : Call → ℕ
asked (read lbuf) = lbuf
asked (write buf) = length buf
asked (lseek offset orig) = 0

abbrev pub IsCapped : Call → Type 0
IsCapped c = asked c < 2 ^ 31

pub record IsOpen (page_size : ℕ) (o : Open) : Type 0 where
  pub sized : length o.kbuf ≡ kbuf_size page_size
  pub small : kbuf_size page_size < 2 ^ 31
  pub within : o.pos ≤ kbuf_size page_size

module _ (page_size : ℕ) (left : ℕ → ℕ) where
  -- One call through `mycdrv_fops`; `none` is an access outside the buffer.
  pub call : Call → Open → Option Open
  call (read lbuf) o = mycdrv_read page_size left o lbuf >>= λ r. some r.after
  call (write buf) o = mycdrv_write page_size left o buf >>= λ r. some r.after
  call (lseek offset orig) o = some (record o { pos = (my_lseek page_size o.pos offset orig).1 })

  pub calls : List Call → Open → Option Open
  calls [] o = some o
  calls (c ∷ cs) o = call c o >>= calls cs

  module _ (fair : (n : ℕ) → left n ≤ n) where
    IsInside-call :
        (lbuf : ℕ) (o : Open) → IsOpen page_size o → lbuf < 2 ^ 31 → IsInside page_size lbuf o
    IsInside-call lbuf o open_file capped = record {
      sized = open_file.sized;
      small = open_file.small;
      within = open_file.within;
      capped = capped;
    }

    call-IsOpen :
        (c : Call) (o : Open)
        → IsOpen page_size o
        → IsCapped c
        → (o' : Open) × (call c o ≡ some o') × IsOpen page_size o'
    unfolding call
    call-IsOpen (read lbuf) o i capped = (
      record o { pos = o.pos + moved page_size left fair o lbuf },
      rw (mycdrv_read_lem page_size left fair lbuf o (IsInside-call lbuf o i capped)),
      record { sized = i.sized; small = i.small; within = omega (arith, i.within) },
    )
    call-IsOpen (write buf) o i capped = (
      record {
        kbuf = blit o.kbuf o.pos (incoming page_size left fair o buf);
        pos = o.pos + moved page_size left fair o (length buf);
      },
      rw (mycdrv_write_lem page_size left fair buf o (IsInside-call (length buf) o i capped)),
      record {
        sized = length-blit o.kbuf o.pos _ ∙ i.sized;
        small = i.small;
        within = omega (arith, i.within);
      },
    )
    call-IsOpen (lseek offset orig) o i capped = (
      _,
      refl,
      record {
        sized = i.sized;
        small = i.small;
        within = my_lseek-le page_size o.pos offset orig i.within;
      },
    )

    -- From a file that is open on a buffer of the right size, no sequence of reads, writes and seeks
    -- of capped lengths runs outside the buffer, and the position stays in it.
    pub calls-IsOpen :
        (cs : List Call) (o : Open)
        → IsOpen page_size o
        → All IsCapped cs
        → (o' : Open) × (calls cs o ≡ some o') × IsOpen page_size o'
    unfolding calls
    calls-IsOpen [] o i h = (o, refl, i)
    calls-IsOpen (c ∷ cs) o i h =
        let (o', e, i') = call-IsOpen c o i h.0 in
        let (last, e', i'') = calls-IsOpen cs o' i' h.1 in (last, rw e e', i'')
