-- ===== src/Efi/Ports.antt =====
-- kprobes/efi_reboot_monitor.c: which port accesses are reported. The other probes report every call
-- or stop the machine.
use kernel_examples.Prelude.{
  ℕ, ◌+◌, ◌^◌, ◌≤◌, ◌<◌, ◌≡◌, ◌⊎◌, ◌↔◌, arith, Bool, true, leb, ◌==◌, ◌&&◌, ◌||◌,
}
use kernel_examples.Kernel.{u64}

-- myjp_acpi_os_write_port
unfoldable pub write_port_reports : ℕ → Bool
write_port_reports port = port == 0xcf9

-- myjp_ioperm: the reset port and the keyboard controller's, compared with `from + num`.
unfoldable pub ioperm_reports : ℕ → ℕ → Bool
ioperm_reports from num =
    (leb from 0xcf9 && leb 0xcf9 (u64 (from + num)))
    || (leb from 0x64 && leb 0x64 (u64 (from + num)))

-- The call opens the ports from `from` on, `num` of them.
abbrev pub Opens : ℕ → ℕ → ℕ → Type 0
Opens from num port = (from ≤ port) × (port < from + num)

-- Where the end of the range does not wrap, a call that opens port 0xcf9 or 0x64 is reported, and
-- so is one that opens a range ending just below either, but no other. So every call that opens a
-- port whose writes are reported is reported itself.
ioperm_reports_iff :
    (from num : ℕ)
    → from + num < 2 ^ 64
    → ((ioperm_reports from num ≡ true)
        ↔ ((Opens from (num + 1) 0xcf9) ⊎ (Opens from (num + 1) 0x64)))
      × ((port : ℕ)
          → Opens from num port
          → write_port_reports port ≡ true
          → ioperm_reports from num ≡ true)
unfolding ioperm_reports write_port_reports
ioperm_reports_iff from num h = ((λ r. ground arith, λ o. ground arith), λ port o w. ground arith)
