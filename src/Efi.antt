-- ===== src/Efi.antt =====
-- kprobes/efi_reboot_monitor.c: the text that the monitor makes of an EFI variable, which port calls
-- it reports, the registration of its probes, and the monitor from loading to unloading.
pub mod Name
pub mod Guid
pub mod Variable
pub mod Monitor
pub mod Ports
pub mod Register
pub mod Session
mod Tests
