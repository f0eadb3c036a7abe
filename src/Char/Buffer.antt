-- ===== src/Char/Buffer.antt =====
-- char_dev: what the three drivers share, namely the buffer, the position, and the arithmetic that
-- says how many bytes a call moves.
use kernel_examples.Prelude.{
  ℕ, ◌+◌, ◌-◌, ◌*◌, ◌^◌, ◌≤◌, ◌<◌, ◌≡◌, ◌≢◌, ◌%◌, arith, min, Option, none, some, List, length,
  slice, ltb, leb, if◌then◌else◌,
}
use kernel_examples.Prelude.Int.{ℤ}
use kernel_examples.Kernel.{u32, extend32}

-- A driver's buffer and the position of the file that is open on it.
pub record Open : Type 0 where
  pub kbuf : List ℕ
  pub pos : ℕ

-- What a call returns, the bytes that reach the user, and the state that it leaves.
pub record Reply : Type 0 where
  pub ret : ℤ
  pub delivered : List ℕ
  pub after : Open

abbrev pub kbuf_size : ℕ → ℕ
kbuf_size page_size = 10 * page_size

-- `maxbytes = KBUF_SIZE - *ppos` in an int, and `maxbytes > lbuf ? lbuf : maxbytes`, which compares
-- in a size_t and is kept in an int.
pub bytes_to_do : ℕ → ℕ → ℕ → ℕ
bytes_to_do size pos lbuf =
    let maxbytes = extend32 (u32 (size + 2 ^ 64 - pos)) in
    u32 (if ltb lbuf maxbytes then lbuf else maxbytes)

-- `bytes_to_do - copy_to_user(…)` in an int, where `missed` bytes were not copied.
pub copied : ℕ → ℕ → ℕ
copied asked missed = u32 (asked + 2 ^ 64 - missed)

pub copied_exact :
    (asked missed : ℕ) → asked < 2 ^ 31 → missed ≤ asked → copied asked missed ≡ asked - missed
unfolding copied
copied_exact asked missed h k = omega arith

-- The bytes that copy_to_user reads; `none` is a read outside the buffer.
abbrev pub read_range : List ℕ → ℕ → ℕ → Option (List ℕ)
read_range kbuf off n = if leb (off + n) (length kbuf) then some (slice off n kbuf) else none

-- A buffer that is as large as the drivers allocate it, with the position inside it. A request is
-- shorter than 2 ^ 31 bytes: the kernel caps it before it calls the driver.
pub record IsInside (page_size lbuf : ℕ) (o : Open) : Type 0 where
  pub sized : length o.kbuf ≡ kbuf_size page_size
  pub small : kbuf_size page_size < 2 ^ 31
  pub within : o.pos ≤ kbuf_size page_size
  pub capped : lbuf < 2 ^ 31

-- How many bytes there is room for.
abbrev pub room : ℕ → ℕ → ℕ → ℕ
room page_size pos lbuf = min lbuf (kbuf_size page_size - pos)

pub bytes_to_do-eq-room :
    (page_size lbuf : ℕ) (o : Open)
    → IsInside page_size lbuf o
    → bytes_to_do (kbuf_size page_size) o.pos lbuf ≡ room page_size o.pos lbuf
unfolding bytes_to_do extend32
bytes_to_do-eq-room page_size lbuf o i = ground arith

-- Past the end of the buffer the difference is negative, in an int: it is 0 for a position whole
-- multiples of 2 ^ 32 bytes past it, and otherwise lets at least one byte through.
pub bytes_to_do_past :
    (size pos lbuf : ℕ)
    → size < 2 ^ 31
    → size < pos
    → pos < 2 ^ 63
    → 0 < lbuf
    → lbuf < 2 ^ 31
    → ((pos - size) % 2 ^ 32 ≡ 0 → bytes_to_do size pos lbuf ≡ 0)
      × ((pos - size) % 2 ^ 32 ≢ 0
          → (1 ≤ bytes_to_do size pos lbuf) × (bytes_to_do size pos lbuf ≤ lbuf))
unfolding bytes_to_do extend32
bytes_to_do_past size pos lbuf small past h some_bytes k =
    (λ whole. ground arith, λ part. (ground arith, ground arith))
