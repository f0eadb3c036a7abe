-- ===== src/Efi/Name.antt =====
-- kprobes/efi_reboot_monitor.c: set_efi_name, which copies a name of 16-bit characters into 50 bytes.
pub mod Laws
use kernel_examples.Prelude.{
  ℕ, ◌+◌, ◌%◌, Option, none, some, List, [], ◌∷◌, replicate, ltb, ◌==◌, if◌then◌else◌, blit,
}

abbrev pub name_size : ℕ
name_size = 50

-- The `while`, at `cnt`. `none` is a write past the array, or a read past a name with no end.
pub copy_name : List ℕ → ℕ → List ℕ → Option (List ℕ)
copy_name [] cnt efi_name = none
copy_name (uchar ∷ msg) cnt efi_name =
    let rest = copy_name msg (cnt + 1) (blit efi_name cnt (uchar % 256 ∷ [])) in
    if uchar == 0 then some efi_name else if ltb cnt name_size then rest else none

pub set_efi_name : List ℕ → Option (List ℕ)
unfolding copy_name
set_efi_name msg = copy_name msg 0 (replicate name_size 0)
