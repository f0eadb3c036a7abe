-- ===== src/Block/Disk/Order.antt =====
-- block_dev/sbd.c: segments that do not meet may be served in any order, which the block layer's
-- elevator makes use of.
use mathlib.Core.List.{Permᴰ}
use kernel_examples.Prelude.{ℕ, ◌<◌, ◌≡◌, refl, sym, ap, ◌∙◌, List, [], ◌∷◌, length, All, subst}
use kernel_examples.Block.{Device}
use kernel_examples.Block.Request.{Segment, BlockLayer, Outcome, Served, returned, sbd_request}
use kernel_examples.Block.Request.Serve.{serve_all, IsFs, sbd_request-serve_all}
use kernel_examples.Block.Transfer.{IsValid}
use kernel_examples.Block.Disk.Session.{Plays, serve_all-Plays}
use kernel_examples.Block.Disk.{IsSaneSegment, Moves, transfer-Moves}
use kernel_examples.Block.Disk.Apart.{
  Apart, AllApart, All-Permᴰ, AllApart-Permᴰ, Apart-sym, same_device, same_filled,
}

-- Both lists are served, with the same device at the end and the same segments, up to order.
pub record Reordered (lbs : ℕ) (dev : Device) (xs ys : List Segment) : Type 0 where
  pub end : Device
  pub done : List Segment
  pub done' : List Segment
  pub served : serve_all lbs dev xs ≡ returned (end, done)
  pub served' : serve_all lbs dev ys ≡ returned (end, done')
  pub same : Permᴰ done done'

module _ {lbs : ℕ} where
  nothing-Reordered : (dev : Device) → Reordered lbs dev [] []
  unfolding serve_all
  nothing-Reordered dev = record {
    end = dev;
    done = [];
    done' = [];
    served = refl;
    served' = refl;
    same = Permᴰ.nil;
  }

  cons-Reordered :
      {dev mid : Device} {s : Segment} {filled : List ℕ} {xs ys : List Segment}
      → Moves lbs dev s mid filled
      → Reordered lbs mid xs ys
      → Reordered lbs dev (s ∷ xs) (s ∷ ys)
  unfolding serve_all
  cons-Reordered {s} {filled} first r = record {
    end = r.end;
    done = record s { buffer = filled } ∷ r.done;
    done' = record s { buffer = filled } ∷ r.done';
    served = rw (first.moved, r.served, serve_all) refl;
    served' = rw (first.moved, r.served', serve_all) refl;
    same = Permᴰ.cons refl r.same;
  }

  swap-Reordered :
      {dev mid mid' dev' dev'' : Device} {s t : Segment} {f g : List ℕ} {l done : List Segment}
      → Moves lbs dev s mid f
      → Moves lbs mid t dev' g
      → Moves lbs dev t mid' g
      → Moves lbs mid' s dev' f
      → Plays lbs dev' l dev'' done
      → Reordered lbs dev (s ∷ t ∷ l) (t ∷ s ∷ l)
  unfolding serve_all
  swap-Reordered {dev''} {s} {t} {f} {g} {done} sw tw tw' sw' rest = record {
    end = dev'';
    done = record s { buffer = f } ∷ record t { buffer = g } ∷ done;
    done' = record t { buffer = g } ∷ record s { buffer = f } ∷ done;
    served = rw (sw.moved, tw.moved, rest.served, serve_all) refl;
    served' = rw (tw'.moved, sw'.moved, rest.served, serve_all) refl;
    same = Permᴰ.swap refl refl;
  }

  swapped-Reordered :
      {dev : Device} {s t : Segment} {l : List Segment}
      → IsValid dev
      → IsSaneSegment lbs s
      → IsSaneSegment lbs t
      → All (IsSaneSegment lbs) l
      → Apart lbs s t
      → Reordered lbs dev (s ∷ t ∷ l) (t ∷ s ∷ l)
  swapped-Reordered {dev} {s} {t} {l} valid sane sane' more apart =
      let (mid, f, sw) = transfer-Moves lbs s dev sane valid in
      let (dev', g, tw) = transfer-Moves lbs t mid sane' sw.valid in
      let (mid', g', tw') = transfer-Moves lbs t dev sane' valid in
      let (dev'', f', sw') = transfer-Moves lbs s mid' sane tw'.valid in
      let (end, done, rest) = serve_all-Plays dev' l tw.valid more in
      let same_g : g' ≡ g = same_filled (Apart-sym lbs s t apart) tw' sw' sw tw in
      let same_f : f' ≡ f = sym (same_filled apart sw tw tw' sw') in
      let same_end : dev'' ≡ dev' = sym (same_device apart sw tw tw' sw') in
      swap-Reordered sw tw (subst (Moves lbs dev t mid') same_g tw')
        (subst (λ d. Moves lbs mid' s d f) same_end (subst (Moves lbs mid' s dev'') same_f sw'))
        rest

  trans-Reordered :
      {dev : Device} {xs ys zs : List Segment}
      → Reordered lbs dev xs ys
      → Reordered lbs dev ys zs
      → Reordered lbs dev xs zs
  trans-Reordered {dev} {ys} r q =
      let agree : ◌≡◌ {A = Outcome Served} (returned (q.end, q.done)) (returned (r.end, r.done')) =
        sym q.served ∙ r.served' in
      let same : q.end ≡ r.end = cc in
      let same' : q.done ≡ r.done' = cc in
      record {
        end = r.end;
        done = r.done;
        done' = q.done';
        served = r.served;
        served' = q.served' ∙ ap (λ d. returned (d, q.done')) same;
        same = Permᴰ.trans r.same (subst (λ l. Permᴰ l q.done') same' q.same);
      }

  perm-Reordered :
      {xs ys : List Segment} (dev : Device)
      → Permᴰ xs ys
      → IsValid dev
      → All (IsSaneSegment lbs) xs
      → AllApart lbs xs
      → Reordered lbs dev xs ys
  perm-Reordered dev Permᴰ.nil valid sane apart = nothing-Reordered dev
  perm-Reordered dev (Permᴰ.cons {a} {l₁} {l₂} e p) valid sane apart =
      let (mid, filled, first) = transfer-Moves lbs a dev sane.0 valid in
      subst (λ b. Reordered lbs dev (a ∷ l₁) (b ∷ l₂)) e
        (cons-Reordered first (perm-Reordered mid p first.valid sane.1 apart.1))
  perm-Reordered dev (Permᴰ.swap {a} {b} {b'} {l} e f) valid sane apart =
      subst (λ c. Reordered lbs dev (a ∷ b ∷ l) (c ∷ b' ∷ l)) f
        (subst (λ c. Reordered lbs dev (a ∷ b ∷ l) (b ∷ c ∷ l)) e
          (swapped-Reordered valid sane.0 sane.1.0 sane.1.1 apart.0.0))
  perm-Reordered dev (Permᴰ.trans p q) valid sane apart =
      trans-Reordered (perm-Reordered dev p valid sane apart)
        (perm-Reordered dev q valid (All-Permᴰ _ p sane) (AllApart-Permᴰ lbs p apart))

-- Two queues, in the hands of two block layers, whose segments are the same up to order.
module _ (layer layer' : BlockLayer) (lbs : ℕ) where
  open layer use {Queue, pending}
  open layer' use {Queue as Queue', pending as pending'}

  -- On a well-formed device, two queues of the same file system segments in different orders, none
  -- of which wraps or writes where another reads or writes, both end, with the same device, and with
  -- the same segments given back up to order, each with the same bytes in its buffer.
  pub sbd_request-perm :
      (fuel fuel' : ℕ) (q : Queue) (q' : Queue') (dev : Device)
      → Permᴰ (pending q) (pending' q')
      → IsValid dev
      → All IsFs (pending q)
      → All (IsSaneSegment lbs) (pending q)
      → AllApart lbs (pending q)
      → length (pending q) < fuel
      → length (pending' q') < fuel'
      → (dev' : Device) × (done : List Segment) × (done' : List Segment) × (sbd_request layer lbs
            fuel q dev
          ≡ returned (dev', done))
        × (sbd_request layer' lbs fuel' q' dev ≡ returned (dev', done'))
        × Permᴰ done done'
  sbd_request-perm fuel fuel' q q' dev p valid fs sane apart enough enough' =
      let r = perm-Reordered dev p valid sane apart in
      (
        r.end,
        r.done,
        r.done',
        sbd_request-serve_all layer lbs fuel q dev fs enough ∙ r.served,
        sbd_request-serve_all layer' lbs fuel' q' dev (All-Permᴰ _ p fs) enough' ∙ r.served',
        r.same,
      )
