-- ===== src/Char/Dynamic.antt =====
-- char_dev/mydynamic.c: mycdrv_read and mycdrv_write. Unlike mydynamic_udev.c, a call at the end of
-- the buffer goes on with no byte to move. What is printed is left out.
pub mod Laws
pub mod Session
use kernel_examples.Prelude.{
  ℕ, ◌+◌, ◌-◌, Option, none, some, List, [], ◌++◌, length, take, replicate, memcpy, ◌>>=◌,
}
use kernel_examples.Kernel.{u64, extend32, signed32}
use kernel_examples.Char.Buffer.{Open, Reply, kbuf_size, bytes_to_do, copied, read_range}

module _ (page_size : ℕ) (left : ℕ → ℕ) where
  pub mycdrv_read : Open → ℕ → Option Reply
  mycdrv_read o lbuf =
      let asked = extend32 (bytes_to_do (kbuf_size page_size) o.pos lbuf) in
      let nbytes = copied asked (left asked) in
      do
        got ← read_range o.kbuf o.pos asked
        some (record {
          ret = signed32 nbytes;
          delivered = take (asked - left asked) got;
          after = record o { pos = u64 (o.pos + extend32 nbytes) };
        })

  pub mycdrv_write : Open → List ℕ → Option Reply
  mycdrv_write o buf =
      let asked = extend32 (bytes_to_do (kbuf_size page_size) o.pos (length buf)) in
      let missed = left asked in
      let nbytes = copied asked missed in
      do
        kbuf ← memcpy o.kbuf o.pos (take (asked - missed) buf ++ replicate missed 0) 0 asked
        some (record {
          ret = signed32 nbytes;
          delivered = [];
          after = record { kbuf = kbuf; pos = u64 (o.pos + extend32 nbytes) };
        })
