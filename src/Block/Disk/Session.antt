-- ===== src/Block/Disk/Session.antt =====
-- block_dev/sbd.c: what a whole queue of requests does to the disk, and what its reads see.
use kernel_examples.Prelude.{
  ℕ, zero, suc, ◌<◌, ◌≡◌, refl, ◌∙◌, Option, some, List, [], ◌∷◌, length, get_elem?, take, All,
  subst, ap₂,
}
use mathlib.Core.Path.{fun_ext}
use kernel_examples.Block.{Device}
use kernel_examples.Block.Request.{Segment, BlockLayer, returned, sbd_request}
use kernel_examples.Block.Request.Serve.{serve_all, IsFs, sbd_request-serve_all}
use kernel_examples.Block.Transfer.{IsValid}
use kernel_examples.Block.Disk.{written, filled_at, IsSaneSegment, Moves, transfer-Moves}

-- What stands at `i` after the segments, where `old` stood before: the last one that writes the
-- place decides.
pub latest : ℕ → ℕ → List Segment → ℕ → Option ℕ → Option ℕ
latest lbs size [] i old = old
latest lbs size (s ∷ segments) i old = latest lbs size segments i (written lbs size s i old)

-- The segment at `n` comes back with what the disk holds after the `n` before it.
abbrev pub Sees : ℕ → ℕ → (ℕ → Option ℕ) → List Segment → List Segment → ℕ → Segment → Type 0
Sees lbs size disk segments done n s =
    (t : Segment) × (get_elem? done n ≡ some t)
    × (t ≡ record s { buffer = t.buffer })
    × ((j : ℕ)
        → get_elem? t.buffer j
          ≡ filled_at lbs size s (λ i. latest lbs size (take n segments) i (disk i)) j)

-- A pass over the segments, which gives each of them back with its buffer as it is then.
pub record Plays (lbs : ℕ) (dev : Device) (segments : List Segment) (dev' : Device)
    (done : List Segment) : Type 0 where
  pub served : serve_all lbs dev segments ≡ returned (dev', done)
  pub valid : IsValid dev'
  pub same_size : dev'.size ≡ dev.size
  pub disk_after :
      (i : ℕ) → get_elem? dev'.bytes i ≡ latest lbs dev.size segments i (get_elem? dev.bytes i)
  pub buffers_after :
      (n : ℕ) (s : Segment)
      → get_elem? segments n ≡ some s
      → Sees lbs dev.size (get_elem? dev.bytes) segments done n s

module _ {lbs : ℕ} where
  nothing-Plays : (dev : Device) → IsValid dev → Plays lbs dev [] dev []
  unfolding serve_all latest
  nothing-Plays dev valid = record {
    served = refl;
    valid = valid;
    same_size = refl;
    disk_after = λ i. refl;
    buffers_after = λ n s e. cc;
  }

  module _ {dev mid dev' : Device} {s : Segment} {segments done : List Segment} {filled : List ℕ}
      (first : Moves lbs dev s mid filled) (rest : Plays lbs mid segments dev' done) where
    -- The disk that the segments behind `s` start from.
    disk_between :
        (l : List Segment) (i : ℕ)
        → latest lbs mid.size l i (get_elem? mid.bytes i)
          ≡ latest lbs dev.size (s ∷ l) i (get_elem? dev.bytes i)
    unfolding latest
    disk_between l i =
        ap₂ (λ size old. latest lbs size l i old) first.same_size (first.disk_after i)

    cons-Sees :
        (n : ℕ) (t : Segment)
        → get_elem? (s ∷ segments) n ≡ some t
        → Sees lbs dev.size
            (get_elem? dev.bytes)
            (s ∷ segments)
            (record s { buffer = filled } ∷ done)
            n
            t
    unfolding latest
    cons-Sees zero t e =
        let same : s ≡ t = cc in
        subst
          (λ t.
            Sees lbs dev.size (get_elem? dev.bytes) (s ∷ segments)
              (record s { buffer = filled } ∷ done) zero t)
          same (_, refl, refl, first.buffer_after)
    cons-Sees (suc n) t e =
        let (u, at, kept, held) = rest.buffers_after n t e in
        (
          u,
          at,
          kept,
          λ j.
              held j
              ∙ ap₂ (λ size disk. filled_at lbs size t disk j) first.same_size
                  (fun_ext (disk_between (take n segments))),
        )

    cons-Plays : Plays lbs dev (s ∷ segments) dev' (record s { buffer = filled } ∷ done)
    unfolding serve_all
    cons-Plays = record {
      served = rw (first.moved, rest.served, serve_all) refl;
      valid = rest.valid;
      same_size = rest.same_size ∙ first.same_size;
      disk_after = λ i. rest.disk_after i ∙ disk_between segments i;
      buffers_after = cons-Sees;
    }

  pub serve_all-Plays :
      (dev : Device) (segments : List Segment)
      → IsValid dev
      → All (IsSaneSegment lbs) segments
      → (dev' : Device) × (done : List Segment) × Plays lbs dev segments dev' done
  serve_all-Plays dev [] valid sane = (dev, [], nothing-Plays dev valid)
  serve_all-Plays dev (s ∷ segments) valid sane =
      let (mid, filled, first) = transfer-Moves lbs s dev sane.0 valid in
      let (dev', done, rest) = serve_all-Plays mid segments first.valid sane.1 in
      (dev', _, cons-Plays first rest)

module _ (layer : BlockLayer) (lbs : ℕ) where
  open layer use {Queue, pending}

  -- On a well-formed device, where no segment's sum wraps and every buffer holds its range, a queue
  -- of file system requests is served like a plain disk, with any fuel above the number of segments.
  -- The run ends without an access outside; each byte is then what the last segment inside the disk
  -- that writes there has written, or what it was; and each segment comes back with its buffer
  -- filled, if it reads inside the disk, by what the segments before it have left there.
  pub sbd_request-disk :
      (fuel : ℕ) (q : Queue) (dev : Device)
      → IsValid dev
      → All IsFs (pending q)
      → All (IsSaneSegment lbs) (pending q)
      → length (pending q) < fuel
      → (dev' : Device) × (done : List Segment) × (sbd_request layer lbs fuel q dev
          ≡ returned (dev', done))
        × IsValid dev'
        × (dev'.size ≡ dev.size)
        × ((i : ℕ)
            → get_elem? dev'.bytes i ≡ latest lbs dev.size (pending q) i (get_elem? dev.bytes i))
        × ((n : ℕ) (s : Segment)
            → get_elem? (pending q) n ≡ some s
            → Sees lbs dev.size (get_elem? dev.bytes) (pending q) done n s)
  sbd_request-disk fuel q dev valid fs sane enough =
      let (dev', done, plays) = serve_all-Plays dev (pending q) valid sane in
      (
        dev',
        done,
        sbd_request-serve_all layer lbs fuel q dev fs enough ∙ plays.served,
        plays.valid,
        plays.same_size,
        plays.disk_after,
        plays.buffers_after,
      )
