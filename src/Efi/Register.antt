-- ===== src/Efi/Register.antt =====
-- kprobes/efi_reboot_monitor.c: the lists of probes, their registration, and my_init and my_exit.
-- The messages are left out.
pub mod Laws
pub mod Setup
use Prim.Native.String.{String}
use kernel_examples.Prelude.{
  ℕ, zero, suc, ◌+◌, ◌≡◌, Bool, true, false, Option, none, some, List, [], ◌∷◌, length, get_or,
  ◌&&◌, ◌||◌, ◌==◌, ltb, ◌>>=◌, if◌then◌else◌,
}
use kernel_examples.Kernel.{Object, Ledger, id, acquire, release, jprobe, kprobe}

-- What the handler of a probe does with the call that it sees.
pub data Handler : Type 0 where
  stop_machine : Handler  -- do_final_job
  report_variable : Handler  -- prints the name and the GUID, and goes on
  report_port : Handler  -- prints the call if it concerns a watched port, and goes on
  report_call : Handler  -- prints the call, and goes on

pub record Probe : Type 0 where
  pub symbol_name : String
  pub handler : Handler

abbrev pub numjp : ℕ
numjp = 12

abbrev pub numkp : ℕ
numkp = 3

-- `jps`: twelve places with eleven initialisers, so that the last is null.
abbrev pub jps : List (Option Probe)
jps =
    some (record { symbol_name = "acpi_os_write_port"; handler = report_port })
    ∷ some (record { symbol_name = "sys_ioperm"; handler = report_port })
    ∷ some (record { symbol_name = "sys_iopl"; handler = report_call })
    ∷ some (record { symbol_name = "native_machine_power_off"; handler = stop_machine })
    ∷ some (record { symbol_name = "native_machine_shutdown"; handler = stop_machine })
    ∷ some (record { symbol_name = "native_machine_emergency_restart"; handler = stop_machine })
    ∷ some (record { symbol_name = "native_machine_restart"; handler = stop_machine })
    ∷ some (record { symbol_name = "native_machine_halt"; handler = stop_machine })
    ∷ some (record { symbol_name = "native_machine_crash_shutdown"; handler = stop_machine })
    ∷ some (record { symbol_name = "virt_efi_get_variable"; handler = report_variable })
    ∷ some (record { symbol_name = "virt_efi_set_variable"; handler = report_variable })
    ∷ none
    ∷ []

-- `kps`
abbrev pub kps : List (Option Probe)
kps =
    some (record { symbol_name = "virt_efi_get_variable"; handler = report_call })
    ∷ some (record { symbol_name = "virt_efi_set_variable"; handler = report_call })
    ∷ some (record { symbol_name = "efivar_entry_size"; handler = report_call })
    ∷ []

abbrev pub is_set : List (Option Probe) → ℕ → Bool
is_set probes i = elim (get_or probes i none) [ none ↦ false | some _ ↦ true ]

-- Which probes are registered, and which have an address.
pub record Probes : Type 0 where
  pub held : Ledger
  pub addr : Object → Bool

-- register_jprobe and register_kprobe, where they succeed: the kernel has found the address.
abbrev pub registered : Object → Probes → Probes
registered o s = record { held = acquire o s.held; addr = λ p. s.addr p || id o == id p }

-- The two lists are walked alike: `probes` is the list and `family` numbers its objects; `ok` says
-- which registrations the kernel accepts. `none` is a null probe that is used, or the removal of a
-- probe that is not registered.
module _ (probes : List (Option Probe)) (family : ℕ → Object) where
  -- `for (j = i - 1; j >= 0; j--)`
  pub roll_back : ℕ → Probes → Option Probes
  roll_back zero s = some s
  roll_back (suc j) s =
      if is_set probes j
      then (release (family j) s.held >>= λ l. roll_back j (record s { held = l }))
      else none

  -- `for (i = 0; i < NUM; i++)`, with so many rounds to go; the status that is returned.
  pub register_from : (ℕ → Bool) → ℕ → ℕ → Probes → Option (ℕ × Probes)
  unfolding roll_back
  register_from ok zero i s = some (0, s)
  register_from ok (suc rounds) i s = elim (is_set probes i) [
    | false ↦ register_from ok rounds (i + 1) s
    | true ↦ elim (ok i) [
      | true ↦ register_from ok rounds (i + 1) (registered (family i) s)
      | false ↦ (roll_back i s >>= λ s'. some (1, s'))
    ]
  ]

  pub unregister_from : ℕ → ℕ → Probes → Option Probes
  unregister_from zero i s = some s
  unregister_from (suc rounds) i s = elim (is_set probes i && s.addr (family i)) [
    | false ↦ unregister_from rounds (i + 1) s
    | true ↦
        (release (family i) s.held >>= λ l. unregister_from rounds (i + 1) (record s { held = l }))
  ]

pub register_jprobe_list : (ℕ → Bool) → Probes → Option (ℕ × Probes)
unfolding register_from
register_jprobe_list ok s = register_from jps jprobe ok numjp 0 s

pub unregister_jprobe_list : Probes → Option Probes
unfolding unregister_from
unregister_jprobe_list s = unregister_from jps jprobe numjp 0 s

pub register_kprobe_list : (ℕ → Bool) → Probes → Option (ℕ × Probes)
unfolding register_from
register_kprobe_list ok s = register_from kps kprobe ok numkp 0 s

pub unregister_kprobe_list : Probes → Option Probes
unfolding unregister_from
unregister_kprobe_list s = unregister_from kps kprobe numkp 0 s

-- my_init once the jprobes are registered.
after_jprobes : (ℕ → Bool) → Probes → Option (ℕ × Probes)
unfolding register_kprobe_list unregister_jprobe_list
after_jprobes kok s = do
  k ← register_kprobe_list kok s
  if ltb 0 k.0 then (unregister_jprobe_list k.1 >>= λ s'. some (k.0, s')) else some (0, k.1)

-- The status and the probes, by which jprobes and which kprobes the kernel accepts.
pub my_init : (ℕ → Bool) → (ℕ → Bool) → Probes → Option (ℕ × Probes)
unfolding register_jprobe_list after_jprobes
my_init jok kok s = do
  j ← register_jprobe_list jok s
  if ltb 0 j.0 then some j else after_jprobes kok j.1

pub my_exit : Probes → Option Probes
unfolding unregister_kprobe_list unregister_jprobe_list
my_exit s = do s ← unregister_kprobe_list s; unregister_jprobe_list s
