-- ===== src/Morse/Write.antt =====
-- io_port/morse_io.c: m_write. kmalloc and copy_from_user are what the kernel answers: whether there
-- is memory, and how many of the last bytes could not be copied and are zero instead.
pub mod Laws
use kernel_examples.Prelude.{
  ℕ, ◌+◌, ◌-◌, Bool, Option, none, some, List, [], ◌∷◌, ◌++◌, length, take, replicate, memcpy,
  if◌then◌else◌, ◌>>=◌,
}
use kernel_examples.Morse.Code.{morse}
use kernel_examples.Morse.Speaker.{Machine, send_all}

module _ (hz : ℕ) where
  -- What is returned, with the ports behind it; `none` is an access outside the memory of kmalloc.
  pub m_write : Bool → ℕ → ℕ → List ℕ → Machine → Option (ℕ × Machine)
  m_write granted missed minor buffer m =
      let minor_no = minor + 1 in
      let len = length buffer - missed in
      let memory = take len buffer ++ replicate missed 0 in
      if granted
      then (do
        ended ← memcpy memory len (0 ∷ []) 0 1
        signals ← morse ended
        some (len, send_all hz minor_no signals m))
      else some (0, m)
