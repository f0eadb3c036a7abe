-- ===== src/Device/Pci.antt =====
-- pci/pci_view.c and pci/pci_probe_test.c: what they print of the devices on the bus. The devices are
-- an argument.
use kernel_examples.Prelude.{
  ℕ, ◌+◌, ◌≡◌, refl, arith, Option, some, List, [], ◌∷◌, length, ltb, if◌then◌else◌,
}
use kernel_examples.Prelude.Int.{ℤ, pos, negsuc, sub_ℕ}
use kernel_examples.Kernel.{Ledger, acquire, release, pci_driver, fail, release-acquire}

-- The configuration words and bytes that are read.
pub record Config : Type 0 where
  pub vendor : ℕ
  pub device_id : ℕ
  pub revision : ℕ
  pub interrupt_line : ℕ

-- A byte in a `char`, which has a sign.
abbrev pub signed8 : ℕ → ℤ
signed8 b = if ltb b 128 then pos b else sub_ℕ b 256

-- j, the two identifiers and irq.
pub record Found : Type 0 where
  pub j : ℕ
  pub vendor_id : ℕ
  pub pci_device_id : ℕ
  pub irq : ℤ

-- The loop over the devices, from `j` on.
pub view_from : ℕ → List Config → List Found
view_from j [] = []
view_from j (pdev ∷ devices) =
    record {
      j = j;
      vendor_id = pdev.vendor;
      pci_device_id = pdev.device_id;
      irq = signed8 pdev.interrupt_line;
    }
    ∷ view_from (j + 1) devices

-- my_init of pci_view.c, which never loads.
pub view_init : List Config → ℤ × List Found
view_init devices = (fail 1, view_from 0 devices)

-- my_probe of pci_probe_test.c: what it returns and prints.
pub my_probe : Config → ℤ × ℕ × ℕ
my_probe dev = (pos 0, dev.vendor, dev.revision)

-- my_init and my_exit of pci_probe_test.c, by what pci_register_driver answers.
pub probe_init : ℤ → Ledger → ℤ × Ledger
probe_init (negsuc e) l = (negsuc e, l)
probe_init (pos n) l = (pos n, acquire pci_driver l)

pub probe_exit : Ledger → Option Ledger
probe_exit l = release pci_driver l

probe_exit-probe_init : (n : ℕ) (l : Ledger) → probe_exit (probe_init (pos n) l).1 ≡ some l
unfolding probe_init probe_exit
probe_exit-probe_init n l = release-acquire pci_driver l

length-view_from : (j : ℕ) (devices : List Config) → length (view_from j devices) ≡ length devices
unfolding view_from
length-view_from j [] = refl
length-view_from j (d ∷ devices) = let e = length-view_from (j + 1) devices in omega arith
