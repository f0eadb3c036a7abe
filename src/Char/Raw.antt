-- ===== src/Char/Raw.antt =====
-- char_dev/mychar.c: my_read and my_write, which move what they are asked for wherever the position
-- is; a copy of no bytes touches nothing. What is printed is left out.
pub mod Laws
use kernel_examples.Prelude.{
  ℕ, ◌+◌, ◌-◌, Option, some, List, [], ◌++◌, length, take, replicate, memcpy, ◌==◌, if◌then◌else◌,
  ◌>>=◌,
}
use kernel_examples.Kernel.{u64, extend32, signed32}
use kernel_examples.Char.Buffer.{Open, Reply, copied, read_range}

module _ (left : ℕ → ℕ) where
  pub my_read : Open → ℕ → Option Reply
  my_read o lbuf =
      let nbytes = copied lbuf (left lbuf) in
      do
        got ← (if lbuf == 0 then some [] else read_range o.kbuf o.pos lbuf)
        some (record {
          ret = signed32 nbytes;
          delivered = take (lbuf - left lbuf) got;
          after = record o { pos = u64 (o.pos + extend32 nbytes) };
        })

  pub my_write : Open → List ℕ → Option Reply
  my_write o buf =
      let lbuf = length buf in
      let missed = left lbuf in
      let nbytes = copied lbuf missed in
      do
        kbuf ←
            (if lbuf == 0
              then some o.kbuf
              else memcpy o.kbuf o.pos (take (lbuf - missed) buf ++ replicate missed 0) 0 lbuf)
        some (record {
          ret = signed32 nbytes;
          delivered = [];
          after = record { kbuf = kbuf; pos = u64 (o.pos + extend32 nbytes) };
        })
