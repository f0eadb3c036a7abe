-- ===== src/Efi/Monitor.antt =====
-- kprobes/efi_reboot_monitor.c: the handlers of the probes, call by call.
pub mod Laws
use Prim.Native.String.{String}
use kernel_examples.Prelude.{ℕ, Bool, Option, none, some, List, [], ◌∷◌, ◌++◌, if◌then◌else◌, ◌>>=◌}
use kernel_examples.Efi.Ports.{write_port_reports, ioperm_reports}
use kernel_examples.Efi.Variable.{Report, my_virt_efi_get_variable, my_virt_efi_set_variable}

-- The arguments of a handler for a variable: the memory of the name, the GUID, the flags of the page
-- of the data and the size.
pub record Variable : Type 0 where
  pub name : List ℕ
  pub vendor : ℕ → ℕ
  pub data_ : Option ℕ
  pub data_size : Option ℕ

-- The calls that are probed.
pub data Call : Type 0 where
  power_off shutdown emergency_restart restart halt crash_shutdown : Call
  get_variable set_variable : Variable → Call
  write_port : (port value width : ℕ) → Call
  ioperm : (from num turn_on : ℕ) → Call
  iopl : ℕ → Call
  -- What the kprobes of `kps` see: the end of a read or a write of a variable, and the start and the
  -- end of efivar_entry_size.
  get_variable_post set_variable_post entry_size_pre entry_size_post : Call

-- What is printed of a call.
pub data Entry : Type 0 where
  vegv vesv : Report → Entry
  acpi_os_write_port : (port value width : ℕ) → Entry
  ioperm_line : (from num turn_on : ℕ) → Entry
  iopl_line : ℕ → Entry
  vegv_post vesv_post ees_pre ees_post : Entry

-- The message of the panic that stopped the machine, if one did, and the log.
pub record Machine : Type 0 where
  pub panicked : Option String
  pub log : List Entry

pub do_final_job : String → Machine → Machine
do_final_job msg m = record m { panicked = some msg }

abbrev pub print : Entry → Machine → Machine
print e m = record m { log = m.log ++ (e ∷ []) }

pub my_native_machine_power_off : Machine → Machine
my_native_machine_power_off m = do_final_job "HR: native_machine_power_off() called\n" m

pub my_native_machine_shutdown : Machine → Machine
my_native_machine_shutdown m = do_final_job "HR: native_machine_shutdown() called\n" m

pub my_native_machine_emergency_restart : Machine → Machine
my_native_machine_emergency_restart m =
    do_final_job "HR: native_machine_emergency_restart() called\n" m

pub my_native_machine_restart : Machine → Machine
my_native_machine_restart m = do_final_job "HR: native_machine_restart() called\n" m

pub my_native_machine_halt : Machine → Machine
my_native_machine_halt m = do_final_job "HR: native_machine_halt() called\n" m

pub my_native_machine_crash_shutdown : Machine → Machine
my_native_machine_crash_shutdown m = do_final_job "HR: native_machine_crash_shutdown() called\n" m

pub myjp_acpi_os_write_port : ℕ → ℕ → ℕ → Machine → Machine
myjp_acpi_os_write_port port value width m =
    if write_port_reports port then print (acpi_os_write_port port value width) m else m

pub myjp_ioperm : ℕ → ℕ → ℕ → Machine → Machine
myjp_ioperm from num turn_on m =
    if ioperm_reports from num then print (ioperm_line from num turn_on) m else m

pub myjp_iopl : ℕ → Machine → Machine
myjp_iopl level m = print (iopl_line level) m

pub virt_efi_get_variable_post_handler : Machine → Machine
virt_efi_get_variable_post_handler m = print vegv_post m

pub virt_efi_set_variable_post_handler : Machine → Machine
virt_efi_set_variable_post_handler m = print vesv_post m

pub efivar_entry_size_pre_handler : Machine → Machine
efivar_entry_size_pre_handler m = print ees_pre m

pub efivar_entry_size_post_handler : Machine → Machine
efivar_entry_size_post_handler m = print ees_post m

-- The handler of a call, as `jps` and `kps` have them. `none` is an access outside an array.
pub handle : Call → Machine → Option Machine
unfolding do_final_job my_native_machine_power_off my_native_machine_shutdown
    my_native_machine_emergency_restart my_native_machine_restart my_native_machine_halt
    my_native_machine_crash_shutdown myjp_acpi_os_write_port myjp_ioperm myjp_iopl
    virt_efi_get_variable_post_handler virt_efi_set_variable_post_handler
    efivar_entry_size_pre_handler efivar_entry_size_post_handler
handle power_off m = some (my_native_machine_power_off m)
handle shutdown m = some (my_native_machine_shutdown m)
handle emergency_restart m = some (my_native_machine_emergency_restart m)
handle restart m = some (my_native_machine_restart m)
handle halt m = some (my_native_machine_halt m)
handle crash_shutdown m = some (my_native_machine_crash_shutdown m)
handle (get_variable v) m = do
  r ← my_virt_efi_get_variable v.name v.vendor v.data_ v.data_size
  some (print (vegv r) m)
handle (set_variable v) m = do
  r ← my_virt_efi_set_variable v.name v.vendor v.data_ v.data_size
  some (print (vesv r) m)
handle (write_port port value width) m = some (myjp_acpi_os_write_port port value width m)
handle (ioperm from num turn_on) m = some (myjp_ioperm from num turn_on m)
handle (iopl level) m = some (myjp_iopl level m)
handle get_variable_post m = some (virt_efi_get_variable_post_handler m)
handle set_variable_post m = some (virt_efi_set_variable_post_handler m)
handle entry_size_pre m = some (efivar_entry_size_pre_handler m)
handle entry_size_post m = some (efivar_entry_size_post_handler m)

-- Calls in turn, up to a panic.
unfoldable pub run : List Call → Machine → Option Machine
run [] m = some m
run (c ∷ calls) m = do
  next ← handle c m
  elim next.panicked [ some msg ↦ some next | none ↦ run calls next ]
