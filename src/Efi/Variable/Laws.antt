-- ===== src/Efi/Variable/Laws.antt =====
-- kprobes/efi_reboot_monitor.c: what the two handlers print of a variable.
use kernel_examples.Prelude.{
  ℕ, zero, suc, ◌-◌, ◌%◌, ◌≡◌, ◌≢◌, ◌≤◌, ◌<◌, refl, sym, ap, ◌∙◌, arith, Bool-cases, inl, inr,
  Option, none, some, List, [], ◌∷◌, ◌++◌, append-nil, length, replicate, hex_digit, All, IsNonzero,
  c_string, c_string-ended, c_string-unended, ltb, ltb→lt, lt→ltb, le→ltb, ltb→le, le→leb, lt→leb,
  if◌then◌else◌,
}
use kernel_examples.Efi.Name.{name_size, set_efi_name}
use kernel_examples.Efi.Name.Laws.{low_bytes, set_efi_name_lem}
use kernel_examples.Efi.Guid.Laws.{guid_text, set_guid_lem}
use kernel_examples.Efi.Variable.{Report, slab, my_virt_efi_get_variable, my_virt_efi_set_variable}

-- A 16-bit character whose low byte does not end a text.
abbrev pub IsShown : ℕ → Type 0
IsShown c = c % 256 ≢ 0

IsShown-IsNonzero : (name : List ℕ) → All IsShown name → All IsNonzero name
IsShown-IsNonzero [] h = tt
IsShown-IsNonzero (c ∷ name) h = (λ e. h.0 (omega arith), IsShown-IsNonzero name h.1)

low_bytes-IsNonzero : (name : List ℕ) → All IsShown name → All IsNonzero (low_bytes name)
low_bytes-IsNonzero [] h = tt
low_bytes-IsNonzero (c ∷ name) h = (h.0, low_bytes-IsNonzero name h.1)

hex_digit-IsNonzero : (d : ℕ) → IsNonzero (hex_digit d)
unfolding hex_digit
hex_digit-IsNonzero d e = ground arith

dash-IsNonzero : IsNonzero b'-'
dash-IsNonzero e = omega arith

guid_text-IsNonzero : (b : ℕ → ℕ) → All IsNonzero (guid_text b)
guid_text-IsNonzero b = search (hex_digit-IsNonzero, dash-IsNonzero)

c_string-guid_text : (b : ℕ → ℕ) → c_string (guid_text b ++ (0 ∷ [])) ≡ some (guid_text b)
c_string-guid_text b = c_string-ended (guid_text b) [] (guid_text-IsNonzero b)

c_string-low_bytes :
    (name : List ℕ) (k : ℕ)
    → All IsShown name
    → c_string (low_bytes name ++ replicate k 0) ≡ (if ltb 0 k then some (low_bytes name) else none)
c_string-low_bytes name zero h =
    ap c_string (append-nil (low_bytes name))
    ∙ c_string-unended (low_bytes name) (low_bytes-IsNonzero name h)
c_string-low_bytes name (suc k) h =
    c_string-ended (low_bytes name) (replicate k 0) (low_bytes-IsNonzero name h)
    ∙ sym (rw (lt→ltb 0 (suc k) (omega arith)) refl)

abbrev pub report : List ℕ → (ℕ → ℕ) → Option ℕ → Option ℕ → Report
report name b data_ data_size = record {
  name = low_bytes name;
  guid = guid_text b;
  valid_slab = slab data_;
  size = data_size;
}

set_efi_name_long :
    (name rest : List ℕ)
    → All IsShown name
    → name_size < length name
    → set_efi_name (name ++ (0 ∷ rest)) ≡ none
set_efi_name_long name rest h k =
    set_efi_name_lem name rest (IsShown-IsNonzero name h)
    ∙ rw (lt→leb (length name) name_size k) refl

set_efi_name_short :
    (name rest : List ℕ)
    → All IsShown name
    → length name ≤ name_size
    → set_efi_name (name ++ (0 ∷ rest))
      ≡ some (low_bytes name ++ replicate (name_size - length name) 0)
set_efi_name_short name rest h k =
    set_efi_name_lem name rest (IsShown-IsNonzero name h)
    ∙ rw (le→leb (length name) name_size k) refl

-- The texts, where the name is stored at all.
name_text :
    (name : List ℕ)
    → All IsShown name
    → length name ≤ name_size
    → c_string (low_bytes name ++ replicate (name_size - length name) 0)
      ≡ (if ltb (length name) name_size then some (low_bytes name) else none)
name_text name h k =
    c_string-low_bytes name (name_size - length name) h
    ∙ ap (λ t. if t then some (low_bytes name) else none) same
  where
    same : ltb 0 (name_size - length name) ≡ ltb (length name) name_size
    same = elim (Bool-cases (ltb (length name) name_size)) [
      | inl room ↦
          let below = ltb→lt (length name) name_size room in
          lt→ltb 0 (name_size - length name) (omega arith) ∙ sym room
      | inr full ↦
          let above = ltb→le (length name) name_size full in
          le→ltb 0 (name_size - length name) (omega arith) ∙ sym full
    ]

get_variable :
    (name rest : List ℕ) (b : ℕ → ℕ) (data_ data_size : Option ℕ)
    → All IsShown name
    → my_virt_efi_get_variable (name ++ (0 ∷ rest)) b data_ data_size
      ≡ (if ltb (length name) name_size then some (report name b data_ data_size) else none)
unfolding my_virt_efi_get_variable
get_variable name rest b data_ data_size h = elim (Bool-cases (ltb name_size (length name))) [
  | inl long ↦
      let above = ltb→lt name_size (length name) long in
      rw (set_efi_name_long name rest h above, le→ltb (length name) name_size (omega arith)) refl
  | inr fits ↦
      let below = ltb→le name_size (length name) fits in
      rw
        (
          set_efi_name_short name rest h below,
          set_guid_lem b,
          name_text name h below,
          c_string-guid_text b,
        )
        (elim (Bool-cases (ltb (length name) name_size)) [
          | inl room ↦ rw room refl
          | inr full ↦ rw full refl
        ])
]

-- A name of characters whose low bytes are not zero: both handlers report a name of fewer than 50
-- characters as its low bytes, with the GUID in its form, whether the data lie in a valid slab, and
-- their size. A name of 50 or more makes them leave an array: a longer one writes past efi_name, and
-- one of exactly 50 fills it, so that nothing ends the text that is printed.
pub my_virt_efi_get_variable_lem :
    (name rest : List ℕ) (b : ℕ → ℕ) (data_ data_size : Option ℕ)
    → All IsShown name
    → let reported =
        if ltb (length name) name_size then some (report name b data_ data_size) else none in
      (my_virt_efi_get_variable (name ++ (0 ∷ rest)) b data_ data_size ≡ reported)
      × (my_virt_efi_set_variable (name ++ (0 ∷ rest)) b data_ data_size ≡ reported)
unfolding my_virt_efi_get_variable my_virt_efi_set_variable
my_virt_efi_get_variable_lem name rest b data_ data_size h =
    (get_variable name rest b data_ data_size h, get_variable name rest b data_ data_size h)
