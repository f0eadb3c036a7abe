-- ===== src/Char/Udev/Files/Tape.antt =====
-- char_dev/mydynamic_udev.c: the files that share the buffer, against the tape with heads.
use kernel_examples.Prelude.{
  ℕ, ◌+◌, ◌-◌, ◌^◌, ◌≤◌, ◌<◌, ◌≡◌, refl, ap, ◌∙◌, arith, true, false, some, List, map, length, take,
  replicate, get_elem?, ◌==◌, within, Bool-cases, inl, inr, blit, length-blit, within_cases,
  get_elem?-blit_inside, get_elem?-blit_outside, ==→eq, le→ltb, length-append, length-map,
  length-take, length-replicate, get_elem?-take-slice,
}
use kernel_examples.Char.Buffer.{Reply, IsInside, kbuf_size, room}
use kernel_examples.Char.Case.{convert_char}
use kernel_examples.Char.Udev.Laws.{refused, read_reply, write_reply, my_read_lem, my_write_lem}
use kernel_examples.Char.Udev.Files.{
  file_of, asked, FileCall, read, write, Shared, put_back, opened, file_call, amount, stored,
  tape_after, Answers,
}

abbrev pub IsCapped : FileCall → Type 0
IsCapped c = asked c < 2 ^ 31

pub record IsShared (page_size : ℕ) (s : Shared) : Type 0 where
  pub sized : length s.kbuf ≡ kbuf_size page_size
  pub small : kbuf_size page_size < 2 ^ 31
  pub within_all : (file : ℕ) → s.positions file ≤ kbuf_size page_size

-- One call gives a reply that does to the buffer and the position of its file what the call does to
-- the tape and the head.
pub record Gives (page_size : ℕ) (left minor : ℕ → ℕ) (c : FileCall) (s : Shared) (r : Reply)
    : Type 0 where
  pub called : file_call page_size left minor c s ≡ some (put_back (file_of c) s r, r)
  pub same_length : length r.after.kbuf ≡ length s.kbuf
  pub head :
      r.after.pos
      ≡ s.positions (file_of c) + amount page_size left (s.positions (file_of c)) (asked c)
  pub tape :
      (i : ℕ)
      → get_elem? r.after.kbuf i
        ≡ tape_after page_size left minor c s.positions (get_elem? s.kbuf) i
  pub answer : Answers page_size left minor c s.positions (get_elem? s.kbuf) r

module _ (page_size : ℕ) (left minor : ℕ → ℕ) (fair : (n : ℕ) → left n ≤ n) (s : Shared)
    (shared : IsShared page_size s) where
  opened-IsInside : (file lbuf : ℕ) → lbuf < 2 ^ 31 → IsInside page_size lbuf (opened file s)
  opened-IsInside file lbuf h = record {
    sized = shared.sized;
    small = shared.small;
    within = shared.within_all file;
    capped = h;
  }

  -- A call at the end of the buffer moves nothing.
  module _ (file lbuf : ℕ) (full : (room page_size (s.positions file) lbuf == 0) ≡ true) where
    no_room : room page_size (s.positions file) lbuf ≡ 0
    no_room = ==→eq _ _ full

    head_stays : s.positions file ≡ s.positions file + amount page_size left (s.positions file) lbuf
    head_stays = let none_fit : room page_size (s.positions file) lbuf ≡ 0 = no_room in omega arith

    nothing_within :
        (i : ℕ) → within (s.positions file) (room page_size (s.positions file) lbuf) i ≡ false
    nothing_within i =
        let none_fit : room page_size (s.positions file) lbuf ≡ 0 = no_room in
        elim (within_cases (s.positions file) (room page_size (s.positions file) lbuf) i) [
          | inl (here, above, below) ↦ absurd (omega arith)
          | inr (there, out) ↦ there
        ]

  length-stored :
      (file : ℕ) (buf : List ℕ)
      → length (stored page_size left minor file (s.positions file) buf)
        ≡ room page_size (s.positions file) (length buf)
  length-stored file buf =
      let n : ℕ = room page_size (s.positions file) (length buf) in
      let m : ℕ = amount page_size left (s.positions file) (length buf) in
      omega (
        arith,
        length-append (map (convert_char (minor file)) (take m buf)) (replicate (left n) 0),
        length-map (take m buf) (convert_char (minor file)),
        length-take m buf,
        length-replicate {A = ℕ} (left n) 0,
        fair n,
      )

  -- A write puts its bytes on the tape.
  written_tape :
      (file : ℕ) (buf : List ℕ) (i : ℕ)
      → get_elem?
          (blit s.kbuf (s.positions file) (stored page_size left minor file (s.positions file) buf))
          i
        ≡ tape_after page_size left minor (write file buf) s.positions (get_elem? s.kbuf) i
  unfolding tape_after
  written_tape file buf i =
      let n : ℕ = room page_size (s.positions file) (length buf) in
      let bytes : List ℕ = stored page_size left minor file (s.positions file) buf in
      let size : length bytes ≡ n = length-stored file buf in
      elim (within_cases (s.positions file) n i) [
        | inl (here, above, below) ↦ rw here (
            ap (get_elem? (blit s.kbuf (s.positions file) bytes)) (omega arith)
            ∙ get_elem?-blit_inside s.kbuf (s.positions file) bytes (i - s.positions file)
                (omega arith) (omega (arith, shared.sized, shared.within_all file)))
        | inr (there, out) ↦
            rw there (get_elem?-blit_outside s.kbuf (s.positions file) bytes i (omega arith))
      ]

  pub read-Gives :
      (file lbuf : ℕ)
      → lbuf < 2 ^ 31
      → (r : Reply) × Gives page_size left minor (read file lbuf) s r
  unfolding file_call tape_after
  read-Gives file lbuf h = elim (Bool-cases (room page_size (s.positions file) lbuf == 0)) [
    | inl full ↦ (
      refused (opened file s),
      record {
        called =
            rw
              (
                my_read_lem page_size left fair lbuf (opened file s) (opened-IsInside file lbuf h),
                full,
              )
              refl;
        same_length = refl;
        head = head_stays file lbuf full;
        tape = λ i. refl;
        answer = (
          rw full,
          λ j. rw (
              le→ltb j (amount page_size left (s.positions file) lbuf) (
                let e : room page_size (s.positions file) lbuf ≡ 0 = no_room file lbuf full in
                omega arith)),
        );
      },
    )
    | inr more ↦ (
      read_reply page_size left fair (opened file s) lbuf,
      record {
        called =
            rw
              (
                my_read_lem page_size left fair lbuf (opened file s) (opened-IsInside file lbuf h),
                more,
              )
              refl;
        same_length = refl;
        head = refl;
        tape = λ i. refl;
        answer = (
          rw more,
          λ j.
              get_elem?-take-slice (amount page_size left (s.positions file) lbuf)
                (s.positions file) (room page_size (s.positions file) lbuf) s.kbuf j (omega arith),
        );
      },
    )
  ]

  pub write-Gives :
      (file : ℕ) (buf : List ℕ)
      → length buf < 2 ^ 31
      → (r : Reply) × Gives page_size left minor (write file buf) s r
  unfolding file_call tape_after
  write-Gives file buf h = elim (Bool-cases (room page_size (s.positions file) (length buf) == 0)) [
    | inl full ↦ (
      refused (opened file s),
      record {
        called =
            rw
              (
                my_write_lem page_size left fair (minor file) buf (opened file s)
                    (opened-IsInside file (length buf) h),
                full,
              )
              refl;
        same_length = refl;
        head = head_stays file (length buf) full;
        tape = λ i. rw (nothing_within file (length buf) full i);
        answer = (rw full, refl);
      },
    )
    | inr more ↦ (
      write_reply page_size left fair (minor file) (opened file s) buf,
      record {
        called =
            rw
              (
                my_write_lem page_size left fair (minor file) buf (opened file s)
                    (opened-IsInside file (length buf) h),
                more,
              )
              refl;
        same_length = length-blit s.kbuf (s.positions file) _;
        head = refl;
        tape = written_tape file buf;
        answer = (rw more, refl);
      },
    )
  ]
