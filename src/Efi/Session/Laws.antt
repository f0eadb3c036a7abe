-- ===== src/Efi/Session/Laws.antt =====
-- kprobes/efi_reboot_monitor.c: what the monitor sees before, while and after it is loaded.
use Prim.Native.String.{String}
use kernel_examples.Prelude.{
  ℕ, zero, suc, ◌+◌, ◌<◌, ◌≡◌, refl, ap, ◌∙◌, arith, Bool, lt→ltb, Option, none, some, List, [],
  ◌∷◌, ◌++◌, All, Option-cases, inl, inr, get_or, ◌>>=◌,
}
use kernel_examples.Kernel.{Object, Ledger, jprobe, kprobe, acquire, acquire_all}
use kernel_examples.Efi.Monitor.{
  Call, power_off, shutdown, emergency_restart, restart, halt, crash_shutdown, get_variable,
  set_variable, write_port, ioperm, iopl, get_variable_post, set_variable_post, entry_size_pre,
  entry_size_post, Entry, Machine, handle, run,
}
use kernel_examples.Efi.Monitor.Laws.{IsHandled, first_message, log_of, run-log_of}
use kernel_examples.Efi.Register.{Probe, Probes, jps, kps, my_init, my_exit}
use kernel_examples.Efi.Register.Setup.{InitEnds, my_init_ends}
use kernel_examples.Efi.Session.{probe_of, dispatch, watch}

-- The function that a call is a call of.
abbrev symbol : Call → String
symbol (write_port port value width) = "acpi_os_write_port"
symbol (ioperm from num turn_on) = "sys_ioperm"
symbol (iopl level) = "sys_iopl"
symbol power_off = "native_machine_power_off"
symbol shutdown = "native_machine_shutdown"
symbol emergency_restart = "native_machine_emergency_restart"
symbol restart = "native_machine_restart"
symbol halt = "native_machine_halt"
symbol crash_shutdown = "native_machine_crash_shutdown"
symbol (get_variable v) = "virt_efi_get_variable"
symbol (set_variable v) = "virt_efi_set_variable"
symbol get_variable_post = "virt_efi_get_variable"
symbol set_variable_post = "virt_efi_set_variable"
symbol entry_size_pre = "efivar_entry_size"
symbol entry_size_post = "efivar_entry_size"

abbrev probed : Object → Option String
probed (jprobe i) = get_or jps i none >>= λ (p : Probe). some p.symbol_name
probed (kprobe i) = get_or kps i none >>= λ (p : Probe). some p.symbol_name
probed _ = none

-- The probe that sees a call is registered at its function.
probed-probe_of : (c : Call) → probed (probe_of c) ≡ some (symbol c)
unfolding probe_of
probed-probe_of (write_port port value width) = refl
probed-probe_of (ioperm from num turn_on) = refl
probed-probe_of (iopl level) = refl
probed-probe_of power_off = refl
probed-probe_of shutdown = refl
probed-probe_of emergency_restart = refl
probed-probe_of restart = refl
probed-probe_of halt = refl
probed-probe_of crash_shutdown = refl
probed-probe_of (get_variable v) = refl
probed-probe_of (set_variable v) = refl
probed-probe_of get_variable_post = refl
probed-probe_of set_variable_post = refl
probed-probe_of entry_size_pre = refl
probed-probe_of entry_size_post = refl

-- Once all are registered, each call has its probe.
all_held :
    (c : Call) (l : Ledger)
    → acquire_all kprobe 3 0 (acquire_all jprobe 11 0 l) (probe_of c) ≡ l (probe_of c) + 1
unfolding probe_of acquire_all acquire
all_held (write_port port value width) l = refl
all_held (ioperm from num turn_on) l = refl
all_held (iopl level) l = refl
all_held power_off l = refl
all_held shutdown l = refl
all_held emergency_restart l = refl
all_held restart l = refl
all_held halt l = refl
all_held crash_shutdown l = refl
all_held (get_variable v) l = refl
all_held (set_variable v) l = refl
all_held get_variable_post l = refl
all_held set_variable_post l = refl
all_held entry_size_pre l = refl
all_held entry_size_post l = refl

-- None of the probes of the monitor is registered.
abbrev pub IsUnseen : Probes → Type 0
IsUnseen s = (c : Call) → s.held (probe_of c) ≡ 0

-- No call changes the log or stops the machine.
abbrev pub IsIdle : Probes → Type 0
IsIdle s =
    (calls : List Call) (log : List Entry)
    → watch s calls (record { panicked = none; log = log })
      ≡ some (record { panicked = none; log = log })

unseen-IsIdle : (s : Probes) → IsUnseen s → IsIdle s
unfolding watch dispatch
unseen-IsIdle s h [] log = refl
unseen-IsIdle s h (c ∷ calls) log = rw (h c) (unseen-IsIdle s h calls log)

-- Everything is seen.
watch-run :
    (s : Probes) (calls : List Call) (m : Machine)
    → ((c : Call) → 0 < s.held (probe_of c))
    → watch s calls m ≡ run calls m
unfolding watch run dispatch
watch-run s [] m h = refl
watch-run s (c ∷ calls) m h =
    rw (lt→ltb 0 (s.held (probe_of c)) (h c)) (elim (Option-cases (handle c m)) [
      | inl fault ↦ rw fault
      | inr (after, e) ↦ rw e (elim (Option-cases after.panicked) [
        | inl on ↦ rw (on, watch, run) (watch-run s calls after h)
        | inr (msg, off) ↦ rw (off, watch, run)
      ])
    ])

-- While the monitor is loaded every call is seen, and it can be unloaded, behind which none is.
pub record IsWatching (s : Probes) : Type 0 where
  pub seen :
      (calls : List Call) (log : List Entry) (h : All IsHandled calls)
      → watch s calls (record { panicked = none; log = log })
        ≡ some (record { panicked = first_message calls; log = log ++ log_of calls h })
  pub unloaded : (s' : Probes) × (my_exit s ≡ some s') × IsIdle s'

-- What loading comes to: all is watched, or nothing is.
abbrev pub LoadEnds : Option (ℕ × Probes) → Type 0
LoadEnds none = ⊥
LoadEnds (some (zero, s)) = IsWatching s
LoadEnds (some (suc n, s)) = IsIdle s

all_seen :
    (s s' : Probes)
    → s'.held ≡ acquire_all kprobe 3 0 (acquire_all jprobe 11 0 s.held)
    → (c : Call) → 0 < s'.held (probe_of c)
all_seen s s' e c =
    let one_more = ap (λ (l : Ledger). l (probe_of c)) e ∙ all_held c s.held in omega arith

load_ends :
    (jok kok : ℕ → Bool) (s : Probes) (o : Option (ℕ × Probes))
    → IsUnseen s
    → InitEnds jok kok s o
    → LoadEnds o
load_ends jok kok s none free e = e
load_ends jok kok s (some (zero, s')) free e = record {
  seen = λ calls log h. watch-run s' calls _ (all_seen s s' e.1) ∙ (run-log_of calls log h).0;
  unloaded = (_, e.0, unseen-IsIdle _ free);
}
load_ends jok kok s (some (suc n, s')) free e =
    unseen-IsIdle s' (λ c. ap (λ (l : Ledger). l (probe_of c)) e.0 ∙ free c)

-- With none of the monitor's probes registered before, and whichever the kernel accepts: if my_init
-- returns 0, any sequence of calls of handled variables stops the machine at the first call that
-- takes it down, with its message, and has logged what was watched before it; my_exit then succeeds,
-- and behind it no call is logged or stopped. If my_init returns anything else, none is either.
pub my_init-LoadEnds : (jok kok : ℕ → Bool) (s : Probes) → IsUnseen s → LoadEnds (my_init jok kok s)
my_init-LoadEnds jok kok s free =
    load_ends jok kok s (my_init jok kok s) free (my_init_ends jok kok s)
