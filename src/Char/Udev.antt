-- ===== src/Char/Udev.antt =====
-- char_dev/mydynamic_udev.c: my_read and my_write. What is printed is left out.
-- copy_to_user and copy_from_user return how many of the bytes asked for they missed: `left` says
-- so for each length. copy_from_user fills what it missed with zeros.
pub mod Laws
pub mod Session
pub mod Files
use kernel_examples.Prelude.{
  ℕ, ◌+◌, ◌-◌, ◌^◌, Option, none, some, List, [], ◌++◌, length, take, replicate, memcpy, ◌==◌,
  if◌then◌else◌, ◌>>=◌,
}
use kernel_examples.Kernel.{u64, extend32, signed32, fail, enospc}
use kernel_examples.Char.Buffer.{Open, Reply, kbuf_size, bytes_to_do, copied, read_range}
use kernel_examples.Char.Case.{convert}

module _ (page_size : ℕ) (left : ℕ → ℕ) where
  -- `none` is an access outside the buffer.
  pub my_read : Open → ℕ → Option Reply
  my_read o lbuf =
      let todo = bytes_to_do (kbuf_size page_size) o.pos lbuf in
      let asked = extend32 todo in
      let nbytes = copied asked (left asked) in
      if todo == 0 then some (record { ret = fail enospc; delivered = []; after = o }) else (do
        got ← read_range o.kbuf o.pos asked
        some (record {
          ret = signed32 nbytes;
          delivered = take (asked - left asked) got;
          after = record o { pos = u64 (o.pos + extend32 nbytes) };
        }))

  -- The list is the user's buffer, `lbuf` bytes long.
  pub my_write : ℕ → Open → List ℕ → Option Reply
  my_write minor o buf =
      let todo = bytes_to_do (kbuf_size page_size) o.pos (length buf) in
      let asked = extend32 todo in
      let missed = left asked in
      let nbytes = copied asked missed in
      if todo == 0 then some (record { ret = fail enospc; delivered = []; after = o }) else (do
        kbuf ← memcpy o.kbuf o.pos (take (asked - missed) buf ++ replicate missed 0) 0 asked
        some (record {
          ret = signed32 nbytes;
          delivered = [];
          after = record {
            kbuf = convert kbuf o.pos (extend32 nbytes) minor;
            pos = u64 (o.pos + extend32 nbytes);
          };
        }))
