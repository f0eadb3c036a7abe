-- ===== src/Char/Udev/Files.antt =====
-- char_dev/mydynamic_udev.c: several files that are open on the one buffer. Each has a position and
-- the minor number of its node; the buffer is a global variable of the module.
pub mod Tape
pub mod Calls
use kernel_examples.Prelude.{
  ℕ, ◌+◌, ◌-◌, ◌≡◌, refl, Bool, Option, none, some, List, [], ◌∷◌, ◌++◌, map, length, take,
  replicate, get_elem?, ltb, ◌==◌, if◌then◌else◌, ◌>>=◌, within,
}
use kernel_examples.Prelude.Int.{ℤ, pos}
use kernel_examples.Kernel.{fail, enospc}
use kernel_examples.Char.Buffer.{Open, Reply, room}
use kernel_examples.Char.Case.{convert_char}
use kernel_examples.Char.Udev.{my_read, my_write}

-- `file` stands for a `struct file *`.
pub data FileCall : Type 0 where
  read : (file lbuf : ℕ) → FileCall
  write : (file : ℕ) (buf : List ℕ) → FileCall

-- `kbuf`, and the position of each file.
pub record Shared : Type 0 where
  pub kbuf : List ℕ
  pub positions : ℕ → ℕ

abbrev pub move_to : ℕ → ℕ → (ℕ → ℕ) → ℕ → ℕ
move_to file p positions g = if file == g then p else positions g

abbrev pub file_of : FileCall → ℕ
file_of (read file lbuf) = file
file_of (write file buf) = file

-- How many bytes the caller asks for.
abbrev pub asked : FileCall → ℕ
asked (read file lbuf) = lbuf
asked (write file buf) = length buf

abbrev pub opened : ℕ → Shared → Open
opened file s = record { kbuf = s.kbuf; pos = s.positions file }

abbrev pub put_back : ℕ → Shared → Reply → Shared
put_back file s r = record { kbuf = r.after.kbuf; positions = move_to file r.after.pos s.positions }

module _ (page_size : ℕ) (left minor : ℕ → ℕ) where
  -- One call through `my_fops`, on the buffer and the position of its file.
  pub file_call : FileCall → Shared → Option (Shared × Reply)
  file_call (read file lbuf) s =
      my_read page_size left (opened file s) lbuf >>= λ r. some (put_back file s r, r)
  file_call (write file buf) s =
      my_write page_size left (minor file) (opened file s) buf >>= λ r. some (put_back file s r, r)

  pub file_calls : List FileCall → Shared → Option (Shared × List Reply)
  file_calls [] s = some (s, [])
  file_calls (c ∷ cs) s = do
    (s', r) ← file_call c s
    (s'', rs) ← file_calls cs s'
    some (s'', r ∷ rs)

-- The driver as a tape with a reading head for each file.
module _ (page_size : ℕ) (left : ℕ → ℕ) where
  -- How many bytes a call moves with the head at `p`.
  abbrev pub amount : ℕ → ℕ → ℕ
  amount p lbuf = room page_size p lbuf - left (room page_size p lbuf)

  abbrev pub result : ℕ → ℕ → ℤ
  result p lbuf = if room page_size p lbuf == 0 then fail enospc else pos (amount p lbuf)

  pub heads_after : FileCall → (ℕ → ℕ) → ℕ → ℕ
  heads_after c heads =
      move_to (file_of c) (heads (file_of c) + amount (heads (file_of c)) (asked c)) heads

  pub all_heads : List FileCall → (ℕ → ℕ) → ℕ → ℕ
  all_heads [] heads = heads
  all_heads (c ∷ cs) heads = all_heads cs (heads_after c heads)

module _ (page_size : ℕ) (left minor : ℕ → ℕ) where
  -- What a write puts on the tape: the bytes copied, converted, and zeros for those missed.
  abbrev pub stored : ℕ → ℕ → List ℕ → List ℕ
  stored file p buf =
      map (convert_char (minor file)) (take (amount page_size left p (length buf)) buf)
      ++ replicate (left (room page_size p (length buf))) 0

  pub tape_after : FileCall → (ℕ → ℕ) → (ℕ → Option ℕ) → ℕ → Option ℕ
  tape_after (read file lbuf) heads tape i = tape i
  tape_after (write file buf) heads tape i =
      if within (heads file) (room page_size (heads file) (length buf)) i
      then get_elem? (stored file (heads file) buf) (i - heads file)
      else tape i

  -- What the caller gets: a number, and what was on the tape under the head.
  abbrev pub Answers : FileCall → (ℕ → ℕ) → (ℕ → Option ℕ) → Reply → Type 0
  Answers (read file lbuf) heads tape r =
      (r.ret ≡ result page_size left (heads file) lbuf)
      × ((j : ℕ)
          → get_elem? r.delivered j ≡ (
              if ltb j (amount page_size left (heads file) lbuf)
              then tape (heads file + j)
              else none))
  Answers (write file buf) heads tape r =
      (r.ret ≡ result page_size left (heads file) (length buf)) × (r.delivered ≡ [])

  pub whole_tape : List FileCall → (ℕ → ℕ) → (ℕ → Option ℕ) → ℕ → Option ℕ
  whole_tape [] heads tape = tape
  whole_tape (c ∷ cs) heads tape =
      whole_tape cs (heads_after page_size left c heads) (tape_after c heads tape)
