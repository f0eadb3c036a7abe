-- ===== src/Efi/Variable.antt =====
-- kprobes/efi_reboot_monitor.c: my_virt_efi_get_variable and my_virt_efi_set_variable, up to what they
-- print.
pub mod Laws
use Prim.Native.Nat.{bit_and}
use kernel_examples.Prelude.{ℕ, Bool, Option, none, some, List, c_string, ◌==◌, ◌>>=◌}
use kernel_examples.Efi.Name.{set_efi_name}
use kernel_examples.Efi.Guid.{set_guid}

-- The two texts; of `data`, where it is not null, whether the page is a valid slab; and `*data_size`,
-- where that is not null.
pub record Report : Type 0 where
  pub name : List ℕ
  pub guid : List ℕ
  pub valid_slab : Option Bool
  pub size : Option ℕ

abbrev pub slab : Option ℕ → Option Bool
slab none = none
slab (some flags) = some (bit_and flags 0x80 == 0x80)

-- On the memory of the name, the bytes of the GUID, the flags of the page of `data`, and the size.
-- `none` is an access outside an array. jprobe_return ends the handler.
pub my_virt_efi_get_variable : List ℕ → (ℕ → ℕ) → Option ℕ → Option ℕ → Option Report
my_virt_efi_get_variable name vendor data_ data_size = do
  efi_name ← set_efi_name name
  vendor_guid ← set_guid vendor
  name_text ← c_string efi_name
  guid_text ← c_string vendor_guid
  some (record { name = name_text; guid = guid_text; valid_slab = slab data_; size = data_size })

pub my_virt_efi_set_variable : List ℕ → (ℕ → ℕ) → Option ℕ → Option ℕ → Option Report
my_virt_efi_set_variable name vendor data_ data_size = do
  efi_name ← set_efi_name name
  vendor_guid ← set_guid vendor
  name_text ← c_string efi_name
  guid_text ← c_string vendor_guid
  some (record { name = name_text; guid = guid_text; valid_slab = slab data_; size = data_size })
