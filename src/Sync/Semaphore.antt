-- ===== src/Sync/Semaphore.antt =====
-- synchronization/sema_mod1.c and sema_mod2.c: the semaphore my_sem of the first module, which the
-- second one waits for. `none` is a call that waits, or a step that the module loader does not allow.
pub mod Laws
use kernel_examples.Prelude.{
  ℕ, zero, suc, ◌+◌, ◌^◌, ◌<◌, ◌≡◌, Bool, true, false, not, Option, none, some, List, [], ◌∷◌, ◌&&◌,
  if◌then◌else◌, ◌>>=◌,
}
use kernel_examples.Prelude.Int.{ℤ, pos}
use kernel_examples.Kernel.{fail, ebusy}

-- The kernel's semaphores, with what their documentation says of the count, an unsigned int:
-- down_interruptible waits for a count of 0 to grow, up to a signal, and returns an error, true, where
-- one ends the wait; down_trylock returns true where it did not take the semaphore.
pub record Semaphores : Type 1 where
  pub Sem : Type 0
  pub count : Sem → ℕ
  pub sema_init : ℕ → Sem
  pub down_trylock : Sem → Bool × Sem
  pub down_interruptible : Bool → Sem → Option (Bool × Sem)  -- with a signal pending or not
  pub up : Sem → Sem
  pub init_count : (n : ℕ) → n < 2 ^ 32 → count (sema_init n) ≡ n
  pub trylock_free :
      (s : Sem)
      → 0 < count s
      → ((down_trylock s).0 ≡ false) × (suc (count (down_trylock s).1) ≡ count s)
  pub trylock_taken : (s : Sem) → count s ≡ 0 → down_trylock s ≡ (true, s)
  pub down_free :
      (pending : Bool) (s : Sem)
      → 0 < count s
      → (t : Sem) × (down_interruptible pending s ≡ some (false, t)) × (suc (count t) ≡ count s)
  pub down_waits : (s : Sem) → count s ≡ 0 → down_interruptible false s ≡ none
  pub down_interrupted : (s : Sem) → count s ≡ 0 → down_interruptible true s ≡ some (true, s)
  pub up_count : (s : Sem) → count s + 1 < 2 ^ 32 → count (up s) ≡ count s + 1

-- The modules that are loaded, my_sem, and whether the device MYDEV is registered.
pub record System (Sem : Type 0) : Type 0 where
  pub my_sem : Sem
  pub mod1 : Bool
  pub mod2 : Bool
  pub device : Bool

-- What can happen. The second module links to my_sem of the first: it is loaded, at most once at a
-- time, only while the first is there, and keeps it from being unloaded.
pub data Event : Type 0 where
  open_mod1 : Event
  load_mod2 : Bool → Event
  unload_mod1 unload_mod2 : Event

module _ (k : Semaphores) where
  open k use {Sem, sema_init, down_trylock, down_interruptible, up}

  pub mod1_open : System Sem → ℤ × System Sem
  mod1_open s =
      let (busy, sem) = down_trylock s.my_sem in
      if busy then (pos 0, record s { my_sem = up sem }) else (pos 0, record s { my_sem = up sem })

  -- Whether register_chrdev grants the device is not looked at.
  pub mod1_init : Bool → Bool → System Sem → Option (ℤ × System Sem)
  mod1_init interrupted register_chrdev s = do
    (failed, sem) ← down_interruptible interrupted (sema_init 1)
    some (
        if failed
        then (fail 1, record s { my_sem = sem })
        else (pos 0, record s { my_sem = sem; mod1 = true; device = register_chrdev }))

  pub mod1_exit : System Sem → System Sem
  mod1_exit s = record s { my_sem = up s.my_sem; mod1 = false; device = false }

  pub mod2_init : Bool → System Sem → Option (ℤ × System Sem)
  mod2_init interrupted s = do
    (failed, sem) ← down_interruptible interrupted s.my_sem
    some (if failed then (fail ebusy, s) else (pos 0, record s { my_sem = sem; mod2 = true }))

  pub mod2_exit : System Sem → System Sem
  mod2_exit s = record s { my_sem = up s.my_sem; mod2 = false }

  pub step : Event → System Sem → Option (System Sem)
  unfolding mod1_open mod1_exit mod2_init mod2_exit
  step open_mod1 s = if s.mod1 && s.device then some (mod1_open s).1 else none
  step (load_mod2 interrupted) s =
      if s.mod1 && not s.mod2 then (mod2_init interrupted s >>= λ r. some r.1) else none
  step unload_mod1 s = if s.mod1 && not s.mod2 then some (mod1_exit s) else none
  step unload_mod2 s = if s.mod2 then some (mod2_exit s) else none

  pub run : List Event → System Sem → Option (System Sem)
  unfolding step
  run [] s = some s
  run (e ∷ events) s = step e s >>= run events
