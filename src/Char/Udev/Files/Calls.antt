-- ===== src/Char/Udev/Files/Calls.antt =====
-- char_dev/mydynamic_udev.c: calls through several files, in any order.
use kernel_examples.Prelude.{
  ℕ, zero, suc, ◌≤◌, ◌≡◌, refl, ap, ap₂, ◌∙◌, arith, Option, some, List, [], ◌∷◌, take, get_elem?,
  All, subst, Bool-cases, inl, inr, ◌==◌,
}
use mathlib.Core.Path.{fun_ext}
use kernel_examples.Char.Buffer.{Reply}
use kernel_examples.Char.Udev.Files.{
  FileCall, read, write, Shared, file_of, put_back, move_to, file_calls, heads_after, Answers,
  all_heads, whole_tape,
}
use kernel_examples.Char.Udev.Files.Tape.{IsCapped, IsShared, Gives, read-Gives, write-Gives}

module _ (page_size : ℕ) (left minor : ℕ → ℕ) (fair : (n : ℕ) → left n ≤ n) where
  call-Gives :
      (c : FileCall) (s : Shared)
      → IsShared page_size s
      → IsCapped c
      → (r : Reply) × Gives page_size left minor c s r
  call-Gives (read file lbuf) s shared h = read-Gives page_size left minor fair s shared file lbuf h
  call-Gives (write file buf) s shared h = write-Gives page_size left minor fair s shared file buf h

  -- The `n`-th call is answered from what the `n` before it have left.
  abbrev pub AnswersInTurn : List FileCall → Shared → List Reply → Type 0
  AnswersInTurn cs s rs =
      (n : ℕ) (c : FileCall)
      → get_elem? cs n ≡ some c
      → (r : Reply) × (get_elem? rs n ≡ some r)
        × Answers page_size left minor c (all_heads page_size left (take n cs) s.positions)
            (whole_tape page_size left minor (take n cs) s.positions (get_elem? s.kbuf)) r

  Answers-subst :
      (c : FileCall) (r : Reply) {heads heads' : ℕ → ℕ} {tape tape' : ℕ → Option ℕ}
      → heads ≡ heads'
      → tape ≡ tape'
      → Answers page_size left minor c heads tape r
      → Answers page_size left minor c heads' tape' r
  Answers-subst c r {heads} {heads'} {tape} same same' h =
      subst (λ t. Answers page_size left minor c heads' t r) same'
        (subst (λ g. Answers page_size left minor c g tape r) same h)

  module _ (c : FileCall) (s : Shared) (r : Reply) (gives : Gives page_size left minor c s r)
      (shared : IsShared page_size s) where
    put_back-IsShared : IsShared page_size (put_back (file_of c) s r)
    put_back-IsShared = record {
      sized = gives.same_length ∙ shared.sized;
      small = shared.small;
      within_all = λ g. elim (Bool-cases (file_of c == g)) [
        | inl same ↦ rw same (omega (arith, gives.head, shared.within_all (file_of c)))
        | inr other ↦ rw other (shared.within_all g)
      ];
    }

    heads_between : (put_back (file_of c) s r).positions ≡ heads_after page_size left c s.positions
    unfolding heads_after
    heads_between = ap (λ p. move_to (file_of c) p s.positions) gives.head

    tape_between :
        (cs : List FileCall)
        → whole_tape page_size left minor cs
            (put_back (file_of c) s r).positions
            (get_elem? r.after.kbuf)
          ≡ whole_tape page_size left minor (c ∷ cs) s.positions (get_elem? s.kbuf)
    unfolding whole_tape
    tape_between cs = ap₂ (whole_tape page_size left minor cs) heads_between (fun_ext gives.tape)

    answers_on :
        (cs : List FileCall) (rs : List Reply)
        → AnswersInTurn cs (put_back (file_of c) s r) rs
        → AnswersInTurn (c ∷ cs) s (r ∷ rs)
    unfolding all_heads whole_tape
    answers_on cs rs rest zero d e =
        let same : c ≡ d = cc in
        subst
          (λ d.
            (r' : Reply) × (get_elem? (r ∷ rs) zero ≡ some r')
            × Answers page_size left minor d s.positions (get_elem? s.kbuf) r')
          same (r, refl, gives.answer)
    answers_on cs rs rest (suc n) d e =
        let (r', at, holds) = rest n d e in
        (
          r',
          at,
          Answers-subst d r' (ap (all_heads page_size left (take n cs)) heads_between)
              (tape_between (take n cs)) holds,
        )

  -- On a buffer of the right size, with every position inside it and every length capped, calls
  -- through any number of files in any order go as on a tape with a reading head for each file. None
  -- leaves the buffer. Each returns how many bytes it moved, or -ENOSPC where there is no room; a
  -- read delivers what is under its head, whichever file wrote it; a write puts its bytes there,
  -- converted as the minor number of its own file says, with zeros for those not copied. A call
  -- moves the head of its file alone, by what it returns.
  pub file_calls-tape :
      (cs : List FileCall) (s : Shared)
      → IsShared page_size s
      → All IsCapped cs
      → (s' : Shared) × (rs : List Reply) × (file_calls page_size left minor cs s ≡ some (s', rs))
        × IsShared page_size s'
        × (s'.positions ≡ all_heads page_size left cs s.positions)
        × ((i : ℕ)
            → get_elem? s'.kbuf i
              ≡ whole_tape page_size left minor cs s.positions (get_elem? s.kbuf) i)
        × AnswersInTurn cs s rs
  unfolding file_calls all_heads whole_tape
  file_calls-tape [] s shared h = (s, [], refl, shared, refl, (λ i. refl), λ n c e. cc)
  file_calls-tape (c ∷ cs) s shared h =
      let (r, gives) = call-Gives c s shared h.0 in
      let on : Shared = put_back (file_of c) s r in
      let (s', rs, ran, shared', heads, tape, answers) =
        file_calls-tape cs on (put_back-IsShared c s r gives shared) h.1 in
      (
        s',
        r ∷ rs,
        rw (gives.called, ran) refl,
        shared',
        heads ∙ ap (all_heads page_size left cs) (heads_between c s r gives shared),
        (λ i. tape i ∙ ap (λ t. t i) (tape_between c s r gives shared cs)),
        answers_on c s r gives shared cs rs answers,
      )
