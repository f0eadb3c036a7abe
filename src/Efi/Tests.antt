-- ===== src/Efi/Tests.antt =====
-- kprobes/efi_reboot_monitor.c at inputs.
use kernel_examples.Prelude.{
  All, none, ◌^◌, ◌<◌, ◌≤◌, ◌⊎◌, ◌++◌, ℕ, ◌+◌, ◌*◌, ◌%◌, refl, ◌≡◌, arith, true, false, some, List,
  [], ◌∷◌, ◌++◌, ◌==◌, not,
}
use kernel_examples.Kernel.{nothing}
use kernel_examples.Efi.Monitor.{
  Variable, Call, get_variable, write_port, halt, iopl, ioperm, ioperm_line, run,
}
use kernel_examples.Efi.Monitor.Laws.{IsShort, entries, log_of, run-log_of}
use kernel_examples.Efi.Variable.{my_virt_efi_get_variable, my_virt_efi_set_variable}
use kernel_examples.Efi.Variable.Laws.{IsShown, report, my_virt_efi_get_variable_lem}
use kernel_examples.Efi.Register.{Probes, my_init}
use kernel_examples.Efi.Register.Setup.{InitEnds, my_init_ends}
use kernel_examples.Efi.Session.Laws.{LoadEnds, my_init-LoadEnds}

-- Any bytes.
abbrev some_guid : ℕ → ℕ
some_guid i = (i * 37 + 11) % 256

-- "Boot", and what stands behind it in memory; the data lie in a page with the flags 0x80.
abbrev boot : List ℕ
boot = b'B' ∷ b'o' ∷ b'o' ∷ b't' ∷ []

boot-IsShown : All IsShown boot
boot-IsShown =
    ((λ e. omega arith), ((λ e. omega arith), ((λ e. omega arith), ((λ e. omega arith), tt))))

my_virt_efi_get_variable_lem_example :
    (my_virt_efi_get_variable (boot ++ (0 ∷ 7 ∷ [])) some_guid (some 128) none
      ≡ some (report boot some_guid (some 128) none))
    × (my_virt_efi_set_variable (boot ++ (0 ∷ 7 ∷ [])) some_guid (some 128) none
        ≡ some (report boot some_guid (some 128) none))
my_virt_efi_get_variable_lem_example =
    my_virt_efi_get_variable_lem boot (7 ∷ []) some_guid (some 128) none boot-IsShown

abbrev no_probes : Probes
no_probes = record { held = nothing; addr = λ o. false }

-- The second kprobe is refused.
my_init_ends_example :
    InitEnds
      (λ i. true)
      (λ i. not (i == 1))
      no_probes
      (my_init (λ i. true) (λ i. not (i == 1)) no_probes)
my_init_ends_example = my_init_ends (λ i. true) (λ i. not (i == 1)) no_probes

-- All probes are accepted.
my_init-LoadEnds_example : LoadEnds (my_init (λ i. true) (λ i. true) no_probes)
my_init-LoadEnds_example = my_init-LoadEnds (λ i. true) (λ i. true) no_probes (λ c. refl)

abbrev boot_order : Variable
boot_order = record {
  name = boot ++ (0 ∷ []);
  vendor = some_guid;
  data_ = none;
  data_size = some 8;
}

boot_order-IsShort : IsShort boot_order
boot_order-IsShort = record {
  text = boot;
  rest = [];
  name_is = refl;
  shown = boot-IsShown;
  short = omega arith;
}

-- A port that is not watched, one that is, and the end.
abbrev calls : List Call
calls = get_variable boot_order ∷ write_port 0x80 1 8 ∷ write_port 0xcf9 6 8 ∷ halt ∷ iopl 3 ∷ []

run-log_of_example :
    (run calls (record { panicked = none; log = [] })
      ≡ some (record {
        panicked = some "HR: native_machine_halt() called\n";
        log = [] ++ log_of calls (boot_order-IsShort, (tt, (tt, (tt, (tt, tt)))));
      }))
    × ((from num turn_on port : ℕ)
        → from + num < 2 ^ 64
        → (port ≡ 0xcf9) ⊎ (port ≡ 0x64)
        → from ≤ port
        → port < from + num
        → entries (ioperm from num turn_on) tt ≡ ioperm_line from num turn_on ∷ [])
run-log_of_example = run-log_of calls [] (boot_order-IsShort, (tt, (tt, (tt, (tt, tt)))))
