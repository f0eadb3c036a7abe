-- ===== src/Device.antt =====
-- io_port, sysrq and pci: a light on a GPIO line, a key that lists the tasks, and the devices on the
-- PCI bus.
pub mod Gpio
pub mod Sysrq
pub mod Pci
mod Tests
