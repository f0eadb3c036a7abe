-- ===== src/Efi/Session.antt =====
-- kprobes/efi_reboot_monitor.c: the monitor from its loading to its unloading. The kernel runs the
-- handler of a probe when the function is called that it is registered at.
pub mod Laws
use Prim.Native.String.{String}
use kernel_examples.Prelude.{
  ℕ, ltb, Option, none, some, List, [], ◌∷◌, ◌>>=◌, if◌then◌else◌, get_or,
}
use kernel_examples.Kernel.{Object, jprobe, kprobe}
use kernel_examples.Efi.Monitor.{
  Call, power_off, shutdown, emergency_restart, restart, halt, crash_shutdown, get_variable,
  set_variable, write_port, ioperm, iopl, get_variable_post, set_variable_post, entry_size_pre,
  entry_size_post, Machine, handle,
}
use kernel_examples.Efi.Register.{Probes}

-- The probe that sees a call, by its place in `jps` or `kps`.
pub probe_of : Call → Object
probe_of (write_port port value width) = jprobe 0
probe_of (ioperm from num turn_on) = jprobe 1
probe_of (iopl level) = jprobe 2
probe_of power_off = jprobe 3
probe_of shutdown = jprobe 4
probe_of emergency_restart = jprobe 5
probe_of restart = jprobe 6
probe_of halt = jprobe 7
probe_of crash_shutdown = jprobe 8
probe_of (get_variable v) = jprobe 9
probe_of (set_variable v) = jprobe 10
probe_of get_variable_post = kprobe 0
probe_of set_variable_post = kprobe 1
probe_of entry_size_pre = kprobe 2
probe_of entry_size_post = kprobe 2

-- A call with the probes that are registered then.
pub dispatch : Probes → Call → Machine → Option Machine
unfolding probe_of
dispatch s c m = if ltb 0 (s.held (probe_of c)) then handle c m else some m

-- Calls in turn, up to a panic.
pub watch : Probes → List Call → Machine → Option Machine
watch s [] m = some m
watch s (c ∷ calls) m = do
  next ← dispatch s c m
  elim next.panicked [ some msg ↦ some next | none ↦ watch s calls next ]
