-- ===== src/Efi/Monitor/Laws.antt =====
-- kprobes/efi_reboot_monitor.c: what a sequence of calls comes to.
use Prim.Native.String.{String}
use kernel_examples.Prelude.{
  ℕ, ◌≡◌, ◌<◌, refl, sym, ap, ◌∙◌, Option-cases, Bool-cases, inl, inr, Option, none, some, List, [],
  ◌∷◌, ◌++◌, ◌+◌, ◌^◌, ◌≤◌, ◌⊎◌, ◌==◌, ◌&&◌, ◌||◌, Bool, leb, arith, append-nil, append_assoc, All,
  length, lt→ltb, if◌then◌else◌,
}
use kernel_examples.Kernel.{u64}
use kernel_examples.Efi.Name.{name_size}
use kernel_examples.Efi.Ports.{write_port_reports, ioperm_reports}
use kernel_examples.Efi.Variable.{my_virt_efi_get_variable, my_virt_efi_set_variable}
use kernel_examples.Efi.Variable.Laws.{IsShown, report, my_virt_efi_get_variable_lem}
use kernel_examples.Efi.Monitor.{
  Variable, Call, power_off, shutdown, emergency_restart, restart, halt, crash_shutdown,
  get_variable, set_variable, write_port, ioperm, iopl, get_variable_post, set_variable_post,
  entry_size_pre, entry_size_post, Entry, vegv, vesv, acpi_os_write_port, ioperm_line, iopl_line,
  vegv_post, vesv_post, ees_pre, ees_post, Machine, handle, run,
}

-- A variable whose name ends, and is short enough for the array.
pub record IsShort (v : Variable) : Type 0 where
  pub text : List ℕ
  pub rest : List ℕ
  pub name_is : v.name ≡ text ++ (0 ∷ rest)
  pub shown : All IsShown text
  pub short : length text < name_size

abbrev pub IsHandled : Call → Type 0
IsHandled (get_variable v) = IsShort v
IsHandled (set_variable v) = IsShort v
IsHandled _ = Unit

-- The message of a panic, by the function that would take the machine down.
abbrev pub message : Call → Option String
message power_off = some "HR: native_machine_power_off() called\n"
message shutdown = some "HR: native_machine_shutdown() called\n"
message emergency_restart = some "HR: native_machine_emergency_restart() called\n"
message restart = some "HR: native_machine_restart() called\n"
message halt = some "HR: native_machine_halt() called\n"
message crash_shutdown = some "HR: native_machine_crash_shutdown() called\n"
message _ = none

-- Whether a port lies from `from` up to the end of the range, itself included.
abbrev pub spans : ℕ → ℕ → ℕ → Bool
spans from num port = leb from port && leb port (u64 (from + num))

-- What a call adds to the log: the reset port is 0xcf9, the keyboard controller's 0x64.
abbrev pub entries : (c : Call) → IsHandled c → List Entry
entries (get_variable v) h = vegv (report h.text v.vendor v.data_ v.data_size) ∷ []
entries (set_variable v) h = vesv (report h.text v.vendor v.data_ v.data_size) ∷ []
entries (write_port port value width) h =
    if port == 0xcf9 then acpi_os_write_port port value width ∷ [] else []
entries (ioperm from num turn_on) h =
    if spans from num 0xcf9 || spans from num 0x64 then ioperm_line from num turn_on ∷ [] else []
entries (iopl level) h = iopl_line level ∷ []
entries get_variable_post h = vegv_post ∷ []
entries set_variable_post h = vesv_post ∷ []
entries entry_size_pre h = ees_pre ∷ []
entries entry_size_post h = ees_post ∷ []
entries _ h = []

abbrev pub first_message : List Call → Option String
first_message [] = none
first_message (c ∷ calls) =
    let later = first_message calls in elim (message c) [ some msg ↦ some msg | none ↦ later ]

-- The log of the calls before the first panic.
abbrev pub log_of : (calls : List Call) → All IsHandled calls → List Entry
log_of [] h = []
log_of (c ∷ calls) h =
    let later = log_of calls h.1 in
    entries c h.0 ++ elim (message c) [ some msg ↦ [] | none ↦ later ]

abbrev machine : Option String → List Entry → Machine
machine p l = record { panicked = p; log = l }

reported :
    (v : Variable) (h : IsShort v)
    → (my_virt_efi_get_variable v.name v.vendor v.data_ v.data_size
        ≡ some (report h.text v.vendor v.data_ v.data_size))
      × (my_virt_efi_set_variable v.name v.vendor v.data_ v.data_size
          ≡ some (report h.text v.vendor v.data_ v.data_size))
reported v h =
    let both = my_virt_efi_get_variable_lem h.text h.rest v.vendor v.data_ v.data_size h.shown in
    let kept =
      ap (λ room. if room then some (report h.text v.vendor v.data_ v.data_size) else none)
        (lt→ltb (length h.text) name_size h.short) in
    (
      ap (λ n. my_virt_efi_get_variable n v.vendor v.data_ v.data_size) h.name_is ∙ both.0 ∙ kept,
      ap (λ n. my_virt_efi_set_variable n v.vendor v.data_ v.data_size) h.name_is ∙ both.1 ∙ kept,
    )

handle_lem :
    (c : Call) (log : List Entry) (h : IsHandled c)
    → handle c (machine none log) ≡ some (machine (message c) (log ++ entries c h))
unfolding handle
handle_lem power_off log h = ap (λ l. some (machine _ l)) (sym (append-nil log))
handle_lem shutdown log h = ap (λ l. some (machine _ l)) (sym (append-nil log))
handle_lem emergency_restart log h = ap (λ l. some (machine _ l)) (sym (append-nil log))
handle_lem restart log h = ap (λ l. some (machine _ l)) (sym (append-nil log))
handle_lem halt log h = ap (λ l. some (machine _ l)) (sym (append-nil log))
handle_lem crash_shutdown log h = ap (λ l. some (machine _ l)) (sym (append-nil log))
handle_lem (get_variable v) log h = rw (reported v h).0 refl
handle_lem (set_variable v) log h = rw (reported v h).1 refl
handle_lem (write_port port value width) log h =
    unfold write_port_reports in
    elim (Bool-cases (port == 0xcf9)) [
      | inl on ↦ rw on refl
      | inr off ↦ rw off (ap (λ l. some (machine none l)) (sym (append-nil log)))
    ]
handle_lem (ioperm from num turn_on) log h =
    unfold ioperm_reports in
    elim (Bool-cases (spans from num 0xcf9 || spans from num 0x64)) [
      | inl on ↦ rw on refl
      | inr off ↦ rw off (ap (λ l. some (machine none l)) (sym (append-nil log)))
    ]
handle_lem (iopl level) log h = refl
handle_lem get_variable_post log h = refl
handle_lem set_variable_post log h = refl
handle_lem entry_size_pre log h = refl
handle_lem entry_size_post log h = refl

run_from :
    (calls : List Call) (log : List Entry) (h : All IsHandled calls)
    → run calls (machine none log) ≡ some (machine (first_message calls) (log ++ log_of calls h))
unfolding run
run_from [] log h = ap (λ l. some (machine none l)) (sym (append-nil log))
run_from (c ∷ calls) log h = elim (Option-cases (message c)) [
  | inl quiet ↦
      rw (handle_lem c log h.0, first_message, log_of, quiet)
        (run_from calls (log ++ entries c h.0) h.1
          ∙ ap (λ l. some (machine (first_message calls) l))
              (append_assoc log (entries c h.0) (log_of calls h.1)))
  | inr (msg, loud) ↦
      rw (handle_lem c log h.0, first_message, log_of, loud)
        (ap (λ l. some (machine (some msg) (log ++ l))) (sym (append-nil (entries c h.0))))
]

-- A call that opens one of the watched ports, in a range that does not wrap round, is in the log.
opens-entries :
    (from num turn_on port : ℕ)
    → from + num < 2 ^ 64
    → (port ≡ 0xcf9) ⊎ (port ≡ 0x64)
    → from ≤ port
    → port < from + num
    → entries (ioperm from num turn_on) tt ≡ ioperm_line from num turn_on ∷ []
opens-entries from num turn_on port small watched above below = ground arith

-- While names of variables are short enough for the array, in any sequence of calls: the machine stops
-- with the message of the first function called that takes it down, whichever of the six it is, and
-- goes on where none is called; until then the log has, in order, every read and write of a variable,
-- every change of the I/O privilege level, the writes to port 0xcf9, the calls for ranges of ports that
-- reach port 0xcf9 or 0x64 with their end counted in, and what the kprobes see. Every call that opens
-- one of these two ports is among them where its range does not wrap round.
pub run-log_of :
    (calls : List Call) (log : List Entry) (h : All IsHandled calls)
    → (run calls (machine none log) ≡ some (machine (first_message calls) (log ++ log_of calls h)))
      × ((from num turn_on port : ℕ)
          → from + num < 2 ^ 64
          → (port ≡ 0xcf9) ⊎ (port ≡ 0x64)
          → from ≤ port
          → port < from + num
          → entries (ioperm from num turn_on) tt ≡ ioperm_line from num turn_on ∷ [])
run-log_of calls log h = (run_from calls log h, opens-entries)
