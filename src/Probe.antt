-- ===== src/Probe.antt =====
-- kprobes/kprobe_test.c, kprobes/jprobe_test.c, debug/kprobe_zap.c and debug/zap_jprobe.c: modules
-- with one probe each. The kernel from 2.6.12 on is taken, which has kallsyms_lookup_name; it is an
-- argument, as is whether a probe is registered. Messages are left out.
pub mod Laws
mod Tests
use kernel_examples.Prelude.{
  ℕ, zero, suc, Bool, true, false, not, Option, none, some, List, [], ◌∷◌, length, ◌==◌, ltb, ◌&&◌,
  if◌then◌else◌, ◌>>=◌,
}
use kernel_examples.Prelude.Int.{ℤ, pos, negsuc}
use kernel_examples.Kernel.{Ledger, acquire, release, kprobe, jprobe, fail}

-- The parameters of the module, the fields of `kp` and what is held. A name is a text or null.
pub record Module : Type 0 where
  pub address : ℕ
  pub name : Option (List ℕ)
  pub addr : ℕ
  pub has_pre : Bool
  pub has_post : Bool
  pub has_fault : Bool
  pub held : Ledger

abbrev pub is_empty : Option (List ℕ) → Bool
is_empty none = true
is_empty (some name) = length name == 0

-- `if (register_kprobe(&kp))`, by its answer.
abbrev pub registered : ℤ → Module → ℤ × Module
registered (negsuc e) m = (fail 1, m)
registered (pos zero) m = (pos 0, record m { held = acquire (kprobe 0) m.held })
registered (pos (suc e)) m = (fail 1, m)

module _ (kallsyms : List ℕ → ℕ) where
  -- `if (name != NULL) address = kallsyms_lookup_name(name)`
  abbrev pub look_up : Module → Module
  look_up m = elim m.name [ none ↦ m | some name ↦ record m { address = kallsyms name } ]

  -- my_init of kprobe_test.c; `ret` is what register_kprobe answers.
  pub test_init : ℤ → Module → ℤ × Module
  test_init ret m =
      let handlers = record m { has_pre = true; has_post = true; has_fault = true } in
      let found = look_up handlers in
      let set = record found { addr = found.address } in
      if m.address == 0 && is_empty m.name
      then (fail 1, m)
      else if found.address == 0
      then (fail 1, found)
      else registered ret set

  -- my_init of kprobe_zap.c, which has a first handler alone.
  pub zap_init : ℤ → Module → ℤ × Module
  zap_init ret m =
      let found = look_up m in
      let set = record found {
        addr = found.address;
        has_pre = true;
        has_post = false;
        has_fault = false;
      } in
      if m.address == 0 && is_empty m.name
      then (fail 1, m)
      else if found.address == 0
      then (fail 1, found)
      else registered ret set

-- my_exit of both.
pub kprobe_exit : Module → Option Ledger
kprobe_exit m = release (kprobe 0) m.held

-- handler_pre of kprobe_zap.c, on fuel: the process mypid is put to sleep again whenever it wakes.
-- `none` is no more fuel.
pub handler_pre : ℕ → ℕ → ℕ → Option ℤ
handler_pre zero mypid current = none
handler_pre (suc fuel) mypid current =
    let again = handler_pre fuel mypid current in if current == mypid then again else some (pos 0)

-- my_init of jprobe_test.c and of zap_jprobe.c, by what register_jprobe answers.
pub jprobe_test_init : ℤ → Ledger → ℤ × Ledger
jprobe_test_init (negsuc e) l = (fail 1, l)
jprobe_test_init (pos n) l = (pos 0, acquire (jprobe 0) l)

pub zap_jprobe_init : ℤ → Ledger → ℤ × Ledger
zap_jprobe_init (negsuc e) l = (negsuc e, l)
zap_jprobe_init (pos n) l = (pos 0, acquire (jprobe 0) l)

pub jprobe_exit : Ledger → Option Ledger
jprobe_exit l = release (jprobe 0) l
