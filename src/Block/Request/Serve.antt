-- ===== src/Block/Request/Serve.antt =====
-- block_dev/sbd.c: the request loop against a plain pass over the segments.
use kernel_examples.Prelude.{
  ℕ, zero, suc, ◌<◌, ◌≡◌, refl, ap, arith, true, false, Option, none, some, List, [], ◌∷◌, ◌++◌,
  length, All, Option-cases, inl, inr, subst, ◌⊎◌,
}
use kernel_examples.Block.{Device, transfer}
use kernel_examples.Block.Request.{
  Segment, BlockLayer, Outcome, returned, faulted, Served, note, serve_loop, sbd_request,
}

-- Each segment is transferred once, in the order given.
unfoldable pub serve_all : ℕ → Device → List Segment → Outcome Served
serve_all lbs dev [] = returned (dev, [])
serve_all lbs dev (s ∷ segments) = elim (transfer lbs dev s.pos s.sectors s.buffer s.write) [
  | none ↦ faulted
  | some (dev', filled) ↦ note (record s { buffer = filled }) (serve_all lbs dev' segments)
]

abbrev pub IsFs : Segment → Type 0
IsFs s = s.is_fs ≡ true

-- Some segment belongs to a request of another type.
abbrev pub HasOther : List Segment → Type 0
HasOther [] = ⊥
HasOther (s ∷ segments) = (s.is_fs ≡ false) ⊎ ((s.is_fs ≡ true) × HasOther segments)

module _ (layer : BlockLayer) (lbs : ℕ) where
  open layer use {
    Queue, Request, current, fetch, end_cur, pending, rest, fetch_none, fetch_some, end_cur_none,
    end_cur_some,
  }

  -- What is left to do when the loop holds a request.
  abbrev todo : Option Request → Queue → List Segment
  todo none q = []
  todo (some r) q = rest r ++ pending q

  fetch_todo : (q : Queue) → pending q ≡ todo (fetch q).0 (fetch q).1
  fetch_todo q = by_result (fetch q).0 (fetch q).1 refl
    where
      by_result : (o : Option Request) (q' : Queue) → fetch q ≡ (o, q') → pending q ≡ todo o q'
      by_result none q' e = fetch_none q q' e
      by_result (some r) q' e = fetch_some q q' r e

  -- What is left to do when the loop has ended the current segment.
  abbrev after : Request → Queue → Option Request → List Segment
  after r q none = todo (fetch q).0 (fetch q).1
  after r q (some r') = todo (some r') q

  todo_step : (r : Request) (q : Queue) → todo (some r) q ≡ current r ∷ after r q (end_cur r)
  todo_step r q = by_end (end_cur r) refl
    where
      by_end : (o : Option Request) → end_cur r ≡ o → rest r ++ pending q ≡ current r ∷ after r q o
      by_end none e = rw (end_cur_none r e) (ap (λ l. current r ∷ l) (fetch_todo q))
      by_end (some r') e = rw (end_cur_some r r' e)

  -- The loop agrees with the plain pass from `req` on.
  abbrev Agrees : ℕ → Queue → Option Request → Device → Type 0
  Agrees fuel q req dev =
      All IsFs (todo req q)
      → length (todo req q) < fuel
      → serve_loop layer lbs fuel q req dev ≡ serve_all lbs dev (todo req q)

  Agrees-after :
      (fuel : ℕ) (r : Request) (q : Queue) (o : Option Request) (dev : Device)
      → ((q' : Queue) (req : Option Request) → Agrees fuel q' req dev)
      → All IsFs (after r q o)
      → length (after r q o) < fuel
      → elim o [
        | some r' ↦ serve_loop layer lbs fuel q (some r') dev
        | none ↦ serve_loop layer lbs fuel (fetch q).1 (fetch q).0 dev
      ]
        ≡ serve_all lbs dev (after r q o)
  Agrees-after fuel r q none dev ih fs h = ih (fetch q).1 (fetch q).0 fs h
  Agrees-after fuel r q (some r') dev ih fs h = ih q (some r') fs h

  serve_loop-serve_all :
      (fuel : ℕ) (q : Queue) (req : Option Request) (dev : Device) → Agrees fuel q req dev
  unfolding serve_loop serve_all
  serve_loop-serve_all zero q req dev fs h = absurd (omega arith)
  serve_loop-serve_all (suc fuel) q none dev fs h = refl
  serve_loop-serve_all (suc fuel) q (some r) dev fs h =
      rw (fs'.0, todo_step r q, serve_loop)
        (elim (Option-cases moved) [
          | inl fault ↦ rw (fault, serve_all)
          | inr (result, e) ↦
              rw (e, serve_all)
                (ap (note _) (
                  Agrees-after fuel r q (end_cur r) result.0
                    (λ q' req. serve_loop-serve_all fuel q' req result.0) fs'.1
                    (omega (arith, ap length (todo_step r q)))))
        ])
    where
      fs' : All IsFs (current r ∷ after r q (end_cur r))
      fs' = subst (All IsFs) (todo_step r q) fs

      moved : Option (Device × List ℕ)
      moved =
          transfer lbs dev (current r).pos (current r).sectors (current r).buffer (current r).write

  -- On a queue of file system requests the loop ends as soon as there is fuel for one round each
  -- segment and one more, and then it has done one transfer for each segment, in the queue's order.
  pub sbd_request-serve_all :
      (fuel : ℕ) (q : Queue) (dev : Device)
      → All IsFs (pending q)
      → length (pending q) < fuel
      → sbd_request layer lbs fuel q dev ≡ serve_all lbs dev (pending q)
  unfolding sbd_request
  sbd_request-serve_all fuel q dev fs h = rw (fetch_todo q) (
      serve_loop-serve_all fuel (fetch q).1 (fetch q).0 dev (subst (All IsFs) (fetch_todo q) fs)
        (omega (arith, ap length (fetch_todo q))))

  HasOther-after :
      (fuel : ℕ) (r : Request) (q : Queue) (o : Option Request) (dev : Device)
      → ((q' : Queue) (req : Option Request)
          → HasOther (todo req q')
          → length (todo req q') < fuel
          → serve_loop layer lbs fuel q' req dev ≡ faulted)
      → HasOther (after r q o)
      → length (after r q o) < fuel
      → elim o [
        | some r' ↦ serve_loop layer lbs fuel q (some r') dev
        | none ↦ serve_loop layer lbs fuel (fetch q).1 (fetch q).0 dev
      ]
        ≡ faulted
  HasOther-after fuel r q none dev ih other h = ih (fetch q).1 (fetch q).0 other h
  HasOther-after fuel r q (some r') dev ih other h = ih q (some r') other h

  serve_loop-faulted :
      (fuel : ℕ) (q : Queue) (req : Option Request) (dev : Device)
      → HasOther (todo req q)
      → length (todo req q) < fuel
      → serve_loop layer lbs fuel q req dev ≡ faulted
  unfolding serve_loop
  serve_loop-faulted zero q req dev other h = absurd (omega arith)
  serve_loop-faulted (suc fuel) q none dev other h = absurd other
  serve_loop-faulted (suc fuel) q (some r) dev other h =
      by_type (λ q' req d. serve_loop-faulted fuel q' req d) (subst HasOther (todo_step r q) other)
    where
      moved : Option (Device × List ℕ)
      moved =
          transfer lbs dev (current r).pos (current r).sectors (current r).buffer (current r).write

      by_type :
          ((q' : Queue) (req : Option Request) (d : Device)
            → HasOther (todo req q')
            → length (todo req q') < fuel
            → serve_loop layer lbs fuel q' req d ≡ faulted)
          → HasOther (current r ∷ after r q (end_cur r))
          → serve_loop layer lbs (suc fuel) q (some r) dev ≡ faulted
      by_type ih (inl this) = rw (this, serve_loop)
      by_type ih (inr (fs, later)) =
          rw (fs, serve_loop)
            (elim (Option-cases moved) [
              | inl fault ↦ rw fault
              | inr (result, e) ↦ rw e (
                  ap (note _) (
                    HasOther-after fuel r q (end_cur r) result.0 (λ q' req. ih q' req result.0)
                      later (omega (arith, ap length (todo_step r q)))))
            ])

  -- A queue that holds a request of another type than the file system's, wherever it stands, makes the
  -- loop fault with fuel for one round each segment and one more: the request is used again after it
  -- was given back, unless a transfer before it has already left the memory.
  pub sbd_request-faulted :
      (fuel : ℕ) (q : Queue) (dev : Device)
      → HasOther (pending q)
      → length (pending q) < fuel
      → sbd_request layer lbs fuel q dev ≡ faulted
  unfolding sbd_request
  sbd_request-faulted fuel q dev other h =
      serve_loop-faulted fuel (fetch q).1 (fetch q).0 dev (subst HasOther (fetch_todo q) other)
        (omega (arith, ap length (fetch_todo q)))

  -- A transfer that leaves the memory ends the run.
  pub sbd_request_faults :
      (fuel : ℕ) (q q' : Queue) (r : Request) (dev : Device)
      → fetch q ≡ (some r, q')
      → (current r).is_fs ≡ true
      → transfer lbs dev (current r).pos (current r).sectors (current r).buffer (current r).write
        ≡ none
      → sbd_request layer lbs (suc fuel) q dev ≡ faulted
  unfolding sbd_request serve_loop
  sbd_request_faults fuel q q' r dev e fs fault = rw (e, fs, serve_loop, fault)
