-- ===== src/Block/Request.antt =====
-- block_dev/sbd.c: sbd_request, the loop over the queue of the block layer.
pub mod Serve
use kernel_examples.Prelude.{
  ℕ, zero, suc, Bool, true, false, Option, none, some, List, [], ◌∷◌, ◌++◌, ◌≡◌,
}
use kernel_examples.Block.{Device, transfer}

-- What the driver reads of a `struct request`: its type, and the segment that is current.
pub record Segment : Type 0 where
  pub is_fs : Bool  -- cmd_type == REQ_TYPE_FS
  pub pos : ℕ  -- blk_rq_pos
  pub sectors : ℕ  -- blk_rq_cur_sectors
  pub buffer : List ℕ
  pub write : Bool  -- rq_data_dir

-- The block layer, which is not part of the repository. `pending` lists the segments that the
-- queue still holds and `rest` those of a request, from the current one on.
pub record BlockLayer : Type 1 where
  pub Queue : Type 0
  pub Request : Type 0
  pub current : Request → Segment
  pub fetch : Queue → Option Request × Queue  -- blk_fetch_request
  pub end_cur : Request → Option Request  -- __blk_end_request_cur: what is left of the request
  pub pending : Queue → List Segment
  pub rest : Request → List Segment
  pub fetch_none : (q q' : Queue) → fetch q ≡ (none, q') → pending q ≡ []
  pub fetch_some :
      (q q' : Queue) (r : Request) → fetch q ≡ (some r, q') → pending q ≡ rest r ++ pending q'
  pub end_cur_none : (r : Request) → end_cur r ≡ none → rest r ≡ current r ∷ []
  pub end_cur_some : (r r' : Request) → end_cur r ≡ some r' → rest r ≡ current r ∷ rest r'

-- How a run of the loop ends: it returns, it touches memory outside a buffer or that was freed, or it is still
-- going when the fuel is out.
pub data Outcome (A : Type 0) : Type 0 where
  returned : A → Outcome A
  faulted : Outcome A
  running : Outcome A

-- The segments that were ended, in order, with what their buffers hold then.
abbrev pub Served : Type 0
Served = Device × List Segment

abbrev pub note : Segment → Outcome Served → Outcome Served
note s (returned (d, done)) = returned (d, s ∷ done)
note s faulted = faulted
note s running = running

module _ (layer : BlockLayer) (logical_block_size : ℕ) where
  open layer use {Queue, Request, current, fetch, end_cur}

  -- The `while`, on fuel. The branch for another type of request gives the whole request back with
  -- __blk_end_request_all, and goes round with it: the test then reads what was freed, which is a fault.
  pub serve_loop : ℕ → Queue → Option Request → Device → Outcome Served
  serve_loop zero q req dev = running
  serve_loop (suc fuel) q none dev = returned (dev, [])
  serve_loop (suc fuel) q (some r) dev = elim ((current r).is_fs) [
    | false ↦ faulted
    | true ↦
        elim (transfer logical_block_size dev (current r).pos (current r).sectors (current r).buffer
          (current r).write) [
            | none ↦ faulted
            | some (dev', filled) ↦
                note (record (layer.current r) { buffer = filled })
                  (elim (end_cur r) [
                    | some r' ↦ serve_loop fuel q (some r') dev'
                    | none ↦ serve_loop fuel (fetch q).1 (fetch q).0 dev'
                  ])
          ]
  ]

  pub sbd_request : ℕ → Queue → Device → Outcome Served
  unfolding serve_loop
  sbd_request fuel q dev = serve_loop fuel (fetch q).1 (fetch q).0 dev
