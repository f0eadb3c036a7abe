-- ===== src/Lib.antt =====
-- Verification of the kernel examples: small Linux modules, each of which stands alone. Every
-- module is loaded by an init function and unloaded by an exit function, and in between the kernel
-- calls its handlers: file operations, a request function, probes, interrupt handlers or threads.
--
-- Two files are shared by all parts. Prelude (with the modules under it) has the names of the
-- libraries, the Boolean tests on numbers, lists and buffers of bytes measured by native numbers,
-- tables checked entry by entry, and signed integers. Kernel has machine words, return codes and
-- the ledger: a function from the objects that a module can hold (regions, cdevs, memory, devices,
-- probes, interrupt lines and others) to how often it holds them. A call of the kernel that can
-- fail is an argument of the model, which is then true of whatever the kernel answers; a call that
-- creates or destroys an object changes the ledger, and giving back what is not held is a fault. A cdev
-- and its memory are two objects, since cdev_init parts them, and a block device is one by its number.
-- `none` stands for a fault throughout: an access outside a buffer, a null pointer, a second free, or
-- a use of what was freed.
--
-- The parts, with the code and the state of each:
--
-- Block (block_dev/sbd.c): a RAM disk. The state is the device: its memory, its number of sectors
--   and the block size. `transfer` is sbd_transfer, with the 64-bit words of its sums;
--   Block.Request has sbd_request as a loop over the segments of the queue, whose fetching
--   functions are the block layer's, a parameter with its documented behaviour as laws;
--   Block.Disk has the disk that the device stands for, a function from places to bytes, what a
--   queue does to it (Disk.Session), and what the order of the queue is worth (Disk.Order);
--   Block.Lifetime goes from loading to unloading, with the queues served in between;
--   Block.Capacity has sbd_getgeo, and Block.Setup sbd_init and sbd_exit with all their error
--   paths. The loop runs on fuel; any fuel above the number of segments that wait is enough, and
--   more changes nothing.
-- Char (char_dev/mydynamic_udev.c, char_dev/mydynamic.c, char_dev/mychar.c): three drivers over a
--   buffer of ten pages. The state of an open file is the buffer and the position. Char.Udev and
--   Char.Dynamic have reads and writes on every branch, with the conversions between int and
--   unsigned long that the code relies on; Char.Case the conversion of letters; Char.Seek the lseek
--   that they share; Char.Raw the driver without bounds; Char.Count open and release; Char.Setup
--   their loading and unloading. Dynamic.Session has sequences of calls on one file, and Udev.Files
--   calls through several files that share the buffer, against a tape with a head for each file.
-- Efi (kprobes/efi_reboot_monitor.c): Efi.Name and Efi.Guid make the texts of a variable's name and
--   GUID in the arrays of the code, Efi.Variable is what the two handlers of variables report with
--   them, Efi.Ports is the filter of the port handlers, Efi.Monitor takes calls in turn up to a
--   panic, and Efi.Register registers the lists of probes with the roll back of a failure.
--   Efi.Session joins the two: a call is handled if the probe at its function is registered.
-- Morse (io_port/morse_io.c): Morse.Code takes a text to the signals that it plays, against an
--   independent Morse alphabet. Morse.Speaker is the machine: port 0x61, what the timer was sent, and
--   for each jiffy slept whether there was a tone, which there is, as on the PC, with both low bits
--   of the port set. Morse.Write is m_write, from the memory to the signals; Morse.Listen takes what
--   the speaker lets hear back to the text; how long schedule_timeout sleeps is the kernel's; Morse.Setup loads and unloads. The loop over the bits of
--   a code has fuel 33: 32 shifts leave nothing of a 32-bit word, and the table is checked with it
--   for all 256 bytes.
-- Proc (filesystem, debug/task_proc.c): Proc.Text is what sprintf prints and the kernel's sscanf
--   reads with %d, the ten digits of an int being the fuel of the printer; Proc.File the file of
--   my_proc.c and, in NewProc, the two of my_new_proc.c; Proc.Sysfs the attribute of my_sysfs.c;
--   Proc.Signal the files of sig_proc.c, with the signals that were sent as part of the state, and
--   with when a task is gone as a parameter;
--   Proc.Task the files of debug/task_proc.c, which goes from a pid to the namespace of its task by
--   a parameter; Proc.Entries the tree of names below /proc and /sys, in which all of them are made
--   and removed.
-- Irq (irq): Irq.Lines is myinterrupt.c; Irq.Tasklet is irq_delayed.c as a state with three
--   counters and what is queued, and its events: an interrupt, a run of the tasklet, a run of the
--   work. Irq.Single is irq_tasklet.c, the same without the work, and simple_tasklet.c.
-- Sync (synchronization): Sync.Semaphore is sema_mod1.c and sema_mod2.c around one semaphore, a
--   parameter with laws on its count, where a call that waits has no result, and a step that the
--   loader does not allow has none either; Sync.Spin is spindead.c as a step relation over any number of
--   threads, one statement of the code a step; Sync.Spin.Threads makes the threads.
-- Net (networking/mynet_drv.c): the device, its counts and what it handed to the kernel, with
--   eth_type_trans as a parameter, and its loading and unloading.
-- Memory (memory): Memory.Dump is hex_dump of kmalloc_rand.c, snprintf by snprintf into its line,
--   with the form of a dump in Memory.Dump.Lines and a reader of dumps in Memory.Dump.Read;
--   Memory.Rand is the my_init around it, Memory.Rand.Read what its dumps show, Memory.Slab
--   dedicated_slab.c. The outer loop runs on fuel; one round for each 16 bytes and one more is
--   enough. The digits of an offset have fuel 16, those of a size_t.
-- Hook (syscalls/mysyscalls.c): the entry of the system call table, cr0, and the name that myopen
--   copies and prints.
-- Probe (kprobes/kprobe_test.c, kprobes/jprobe_test.c, debug/kprobe_zap.c, debug/zap_jprobe.c): the
--   target of a probe and its registration. The handler of kprobe_zap.c runs on fuel, of which none
--   is enough for the process that it stops.
-- Timer (timer): Timer.Periodic is periodic_timer.c with the kernel's clock, a 64-bit word that
--   wraps round, as part of the state, and with when a timer is called as a parameter; Timer.Driver
--   is timer_drv.c, where a pending timer that is initialised again is a fault.
-- Device (io_port/gpio_legacy_led.c, sysrq/sysrq_task.c, pci): Device.Gpio has the lines and their
--   values; Device.Sysrq and Device.Pci what is printed of the tasks and the devices, and the
--   registrations.
-- Basic (module_basic): the first modules, with the log that they print to.
--
-- Not modelled: what is printed (printk, pr_info) but for the dumps, the reports and the lists
-- named above, the fields that only the kernel reads, and the files *.mod.c, which the build
-- generates. The kernel itself (the block layer, the module loader, the scheduler beyond the order
-- of steps) is no part of the model, and what of it is taken as fixed, as which pid has a task in
-- Proc.Task, is an argument; class_create and device_create are taken to succeed, since no
-- caller looks at what they return.
pub mod Basic
pub mod Block
pub mod Char
pub mod Device
pub mod Efi
pub mod Hook
pub mod Irq
pub mod Kernel
pub mod Memory
pub mod Morse
pub mod Net
pub mod Prelude
pub mod Probe
pub mod Proc
pub mod Sync
pub mod Timer
