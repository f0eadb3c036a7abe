-- ===== src/Memory/Dump/Laws.antt =====
-- memory/kmalloc_rand.c: hex_dump ends, keeps to its line and prints the form of a dump.
use kernel_examples.Prelude.{
  ℕ, zero, suc, ◌+◌, ◌-◌, ◌*◌, ◌/◌, ◌^◌, ◌≤◌, ◌<◌, ◌≡◌, refl, sym, ap, subst, ◌∙◌, arith, Bool,
  some, List, [], ◌∷◌, ◌++◌, append_assoc, append-nil, length, get_elem?, take, drop, hex,
  get_elem?-take, length-take, length-append, length-map, drop-cons, drop-empty, drop-drop, lt→ltb,
  le→ltb,
}
use kernel_examples.Kernel.{u64}
use kernel_examples.Memory.Dump.{
  line_size, offset_text, blank, shown, cell, hex_loop, ascii_loop, dump_line, dump_from, hex_dump,
}
use kernel_examples.Memory.Dump.Length.{whole, append-whole, length-cells, length-offset_text}
use kernel_examples.Memory.Dump.Lines.{cells, characters, line_of, lines}

module _ (isprint : ℕ → Bool) (data_ : List ℕ) (len : ℕ) where
  -- What stands at offset `i` of the memory that is shown.
  abbrev At : ℕ → List ℕ → Type 0
  At i bytes = drop i (take len data_) ≡ bytes

  -- A byte of it is in the memory and below `len`, and the next one is behind it.
  At-cons :
      (i : ℕ) (b : ℕ) (bytes : List ℕ)
      → At i (b ∷ bytes)
      → (i < len) × (get_elem? data_ i ≡ some b) × At (i + 1) bytes
  At-cons i b bytes at =
      let (below, found, rest) = drop-cons i (take len data_) b bytes at in
      let inside : i < len = omega (arith, length-take {A = ℕ} len data_) in
      (inside, sym (get_elem?-take len i data_ inside) ∙ found, rest)

  At-empty : (i : ℕ) → len ≤ length data_ → At i [] → len ≤ i
  At-empty i h at = omega (arith, drop-empty i (take len data_) at, length-take {A = ℕ} len data_)

  At-past : (i : ℕ) → At i [] → At (i + 1) []
  At-past i at = sym (drop-drop 1 i (take len data_)) ∙ ap (drop 1) at

  hex_loop-cells :
      (count i j : ℕ) (bytes t : List ℕ)
      → len ≤ length data_
      → i + j + count < 2 ^ 64
      → At (i + j) bytes
      → length t + 3 * count < line_size
      → hex_loop isprint data_ len count i j (whole t) ≡ some (whole (t ++ cells count bytes))
  unfolding hex_loop cells cell
  hex_loop-cells zero i j bytes t l h at f = ap (λ r. some (whole r)) (sym (append-nil t))
  hex_loop-cells (suc count) i j [] t l h at f =
      let e : u64 (i + j) ≡ i + j = omega arith in
      let at' : At (i + (j + 1)) [] = subst (λ k. At k []) (omega arith) (At-past (i + j) at) in
      rw (e, le→ltb (i + j) len (At-empty (i + j) l at), append-whole blank t (omega arith))
        (hex_loop-cells count i (j + 1) [] (t ++ blank) l (omega arith) at'
            (omega (arith, length-append {A = ℕ} t blank))
          ∙ ap (λ r. some (whole r)) (append_assoc t blank (cells count [])))
  hex_loop-cells (suc count) i j (b ∷ bytes) t l h at f =
      let e : u64 (i + j) ≡ i + j = omega arith in
      let (inside, found, rest) = At-cons (i + j) b bytes at in
      let at' : At (i + (j + 1)) bytes = subst (λ k. At k bytes) (omega arith) rest in
      let s = hex b ++ (b' ' ∷ []) in
      rw (e, lt→ltb (i + j) len inside, found, append-whole s t (omega arith))
        (hex_loop-cells count i (j + 1) bytes (t ++ s) l (omega arith) at'
            (omega (arith, length-append {A = ℕ} t s))
          ∙ ap (λ r. some (whole r)) (append_assoc t s (cells count bytes)))

  ascii_loop-characters :
      (count i j : ℕ) (bytes t : List ℕ)
      → len ≤ length data_
      → i + j + count < 2 ^ 64
      → At (i + j) bytes
      → length t + count < line_size
      → ascii_loop isprint data_ len count i j (whole t)
        ≡ some (whole (t ++ characters isprint count bytes))
  unfolding ascii_loop characters
  ascii_loop-characters zero i j bytes t l h at f = ap (λ r. some (whole r)) (sym (append-nil t))
  ascii_loop-characters (suc count) i j [] t l h at f =
      let e : u64 (i + j) ≡ i + j = omega arith in
      rw (e, le→ltb (i + j) len (At-empty (i + j) l at))
        (ap (λ r. some (whole r)) (sym (append-nil t)))
  ascii_loop-characters (suc count) i j (b ∷ bytes) t l h at f =
      let e : u64 (i + j) ≡ i + j = omega arith in
      let (inside, found, rest) = At-cons (i + j) b bytes at in
      let at' : At (i + (j + 1)) bytes = subst (λ k. At k bytes) (omega arith) rest in
      let s = shown isprint b ∷ [] in
      rw (e, lt→ltb (i + j) len inside, found, append-whole s t (omega arith))
        (ascii_loop-characters count i (j + 1) bytes (t ++ s) l (omega arith) at'
            (omega (arith, length-append {A = ℕ} t s))
          ∙ ap (λ r. some (whole r)) (append_assoc t s (characters isprint count bytes)))

  length-characters : (count : ℕ) (bytes : List ℕ) → length (characters isprint count bytes) ≤ count
  unfolding characters
  length-characters count bytes =
      omega (arith, length-map (take count bytes) (shown isprint), length-take {A = ℕ} count bytes)

  dump_line-line_of :
      (i : ℕ) (bytes : List ℕ)
      → len ≤ length data_
      → i + 16 < 2 ^ 64
      → At i bytes
      → dump_line isprint data_ len i ≡ some (line_of isprint i bytes)
  unfolding dump_line line_of
  dump_line-line_of i bytes l h at =
      let a = offset_text i in
      let b = a ++ cells 16 bytes in
      let c = b ++ (b' ' ∷ b'|' ∷ []) in
      let d = c ++ characters isprint 16 bytes in
      let la = length-offset_text i in
      let lb : length b ≤ 66 =
        omega (arith, length-append {A = ℕ} a (cells 16 bytes), length-cells 16 bytes) in
      let lc : length c ≤ 68 = omega (arith, length-append {A = ℕ} b (b' ' ∷ b'|' ∷ [])) in
      let ld : length d ≤ 84 = omega (
        arith,
        length-append {A = ℕ} c (characters isprint 16 bytes),
        length-characters 16 bytes,
      ) in
      let at' : At (i + 0) bytes = subst (λ k. At k bytes) (omega arith) at in
      rw
        (
          append-whole a [] (omega arith),
          hex_loop-cells 16 i 0 bytes a l (omega arith) at' (omega arith),
          append-whole (b' ' ∷ b'|' ∷ []) b (omega arith),
          ascii_loop-characters 16 i 0 bytes c l (omega arith) at' (omega arith),
          append-whole (b'|' ∷ []) d (omega arith),
        )
        (ap some (
          append_assoc c (characters isprint 16 bytes) (b'|' ∷ [])
          ∙ append_assoc b (b' ' ∷ b'|' ∷ []) (characters isprint 16 bytes ++ (b'|' ∷ []))
          ∙ append_assoc a (cells 16 bytes)
              (b' ' ∷ b'|' ∷ (characters isprint 16 bytes ++ (b'|' ∷ [])))))

  dump_from-lines :
      (count fuel i : ℕ) (bytes : List ℕ)
      → len ≤ length data_
      → len + 16 < 2 ^ 64
      → At i bytes
      → count ≡ (len - i + 15) / 16
      → count < fuel
      → dump_from isprint data_ len fuel i ≡ some (lines isprint count i bytes)
  unfolding dump_from lines
  dump_from-lines count zero i bytes l h at n f = absurd (omega arith)
  dump_from-lines zero (suc fuel) i bytes l h at n f = rw (le→ltb i len (omega arith)) refl
  dump_from-lines (suc count) (suc fuel) i bytes l h at n f =
      let e : u64 (i + 16) ≡ i + 16 = omega arith in
      let at' : At (i + 16) (drop 16 bytes) =
        sym (drop-drop 16 i (take len data_)) ∙ ap (drop 16) at in
      rw
        (
          lt→ltb i len (omega arith),
          e,
          dump_line-line_of i bytes l (omega arith) at,
          dump_from-lines count fuel (i + 16) (drop 16 bytes) l h at' (omega arith) (omega arith),
        )
        refl

-- hex_dump of memory that has the bytes asked for, up to 17 bytes below the end of size_t, ends: fuel
-- for one round each 16 bytes and one more is enough. It reads nothing outside those bytes, cuts no
-- line short, and prints the lines of the form of a dump, one for each 16 bytes or part of them.
pub hex_dump-lines :
    (isprint : ℕ → Bool) (data_ : List ℕ) (len fuel : ℕ)
    → len ≤ length data_
    → len + 16 < 2 ^ 64
    → (len + 15) / 16 < fuel
    → hex_dump isprint fuel data_ len ≡ some (lines isprint ((len + 15) / 16) 0 (take len data_))
unfolding hex_dump
hex_dump-lines isprint data_ len fuel l h f =
    dump_from-lines isprint data_ len ((len + 15) / 16) fuel 0 (take len data_) l h refl
      (omega arith) f
