-- ===== src/Kernel/Objects.antt =====
-- The kernel objects that a module holds, each with the number of times that it is held.
use kernel_examples.Prelude.{
  ℕ, zero, suc, ◌+◌, ◌-◌, Option, none, some, ltb, ◌==◌, if◌then◌else◌, ◌>>=◌,
}

-- What the modules of the repository acquire and give back.
pub data Object : Type 0 where
  region : Object  -- register_chrdev_region, alloc_chrdev_region
  cdev : Object  -- cdev_init: the reference that cdev_del drops
  buffer : Object  -- kmalloc, vmalloc
  class : Object  -- class_create
  queue : Object  -- blk_init_queue
  -- cdev_alloc. cdev_init sets the cdev up anew, as one whose last reference does not free its memory.
  cdev_memory : Object
  disk : Object  -- alloc_disk
  netdev : Object  -- alloc_netdev
  chrdev : Object  -- register_chrdev
  buckets : Object  -- kmem_buckets_create
  gpio_line : Object  -- gpio_request
  gpio_export : Object  -- gpio_export
  sysrq_key : Object  -- register_sysrq_key
  pci_driver : Object  -- pci_register_driver
  kobject : Object  -- kobject_create_and_add
  registration : Object  -- register_netdev
  device : ℕ → Object  -- device_create, by its minor number
  jprobe : ℕ → Object  -- register_jprobe, by its place in the list
  kprobe : ℕ → Object  -- register_kprobe, by its place in the list
  irq_line : ℕ → Object  -- request_irq, by its number
  blkdev : ℕ → Object  -- register_blkdev, by its major number

-- Objects are told apart by a number.
abbrev pub id : Object → ℕ
id region = 0
id cdev = 1
id buffer = 2
id class = 3
id queue = 4
id cdev_memory = 5
id disk = 6
id netdev = 7
id chrdev = 8
id buckets = 9
id gpio_line = 10
id gpio_export = 11
id sysrq_key = 12
id pci_driver = 13
id kobject = 14
id registration = 15
id (device n) = 16 + n + n + n + n + n
id (jprobe n) = 17 + n + n + n + n + n
id (kprobe n) = 18 + n + n + n + n + n
id (irq_line n) = 19 + n + n + n + n + n
id (blkdev n) = 20 + n + n + n + n + n

abbrev pub Ledger : Type 0
Ledger = Object → ℕ

abbrev pub nothing : Ledger
nothing o = 0

unfoldable pub acquire : Object → Ledger → Ledger
acquire o l p = if id o == id p then l p + 1 else l p

-- Giving back what is not held is a fault, `none`.
unfoldable pub release : Object → Ledger → Option Ledger
release o l = if ltb 0 (l o) then some (λ p. if id o == id p then l p - 1 else l p) else none

-- The loops over a family of objects, `count` of them from `i` on: device_create for each minor
-- number, and so on.
unfoldable pub acquire_all : (ℕ → Object) → ℕ → ℕ → Ledger → Ledger
acquire_all family zero i l = l
acquire_all family (suc count) i l = acquire_all family count (i + 1) (acquire (family i) l)

unfoldable pub release_all : (ℕ → Object) → ℕ → ℕ → Ledger → Option Ledger
release_all family zero i l = some l
release_all family (suc count) i l = release (family i) l >>= release_all family count (i + 1)
