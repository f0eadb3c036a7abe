-- ===== src/Sync/Semaphore/Laws.antt =====
-- synchronization: how far the semaphore keeps the two modules apart.
use kernel_examples.Prelude.{
  ℕ, ◌+◌, ◌≡◌, Bool, true, false, none, some, List, [], ◌∷◌, ltb, if◌then◌else◌, OnSome,
}
use kernel_examples.Prelude.Int.{pos}
use kernel_examples.Sync.Semaphore.{
  Semaphores, System, mod1_open, mod1_init, mod1_exit, Event, open_mod1, load_mod2, unload_mod1,
  unload_mod2, step,
}

-- A module's share of the semaphore.
abbrev pub holds : Bool → ℕ
holds loaded = if loaded then 1 else 0

module _ (k : Semaphores) where
  open k use {Sem, count, sema_init, down_trylock, down_interruptible, up}

  -- The count and the shares.
  abbrev pub total : System Sem → ℕ
  total s = count s.my_sem + holds s.mod1 + holds s.mod2

  -- Whether the event is an open that finds the semaphore taken.
  abbrev pub is_busy : Event → System Sem → ℕ
  is_busy open_mod1 s = if ltb 0 (count s.my_sem) then 0 else 1
  is_busy (load_mod2 i) s = 0
  is_busy unload_mod1 s = 0
  is_busy unload_mod2 s = 0

  pub busy_opens : List Event → System Sem → ℕ
  busy_opens [] s = 0
  busy_opens (e ∷ events) s =
      is_busy e s + elim (step k e s) [ none ↦ 0 | some t ↦ busy_opens events t ]

  abbrev Counts : Event → System Sem → Type 0
  Counts e s = OnSome (λ t. total t ≡ total s + is_busy e s) (step k e s)

  -- The first module is loaded.
  abbrev pub Apart : Bool → Bool → System Sem → Type 0
  Apart interrupted granted s =
      (t : System Sem) × (v : System Sem) × (mod1_init k interrupted granted s ≡ some (pos 0, t))
      × (count t.my_sem ≡ 0)
      × (t.mod1 ≡ true)
      × (t.device ≡ granted)
      × (step k (load_mod2 false) t ≡ none)
      × (step k (load_mod2 true) t ≡ some t)
      × ((pending : Bool) → step k (load_mod2 pending) (mod1_exit k t) ≡ none)
      × (step k (load_mod2 false) (mod1_open k t).1 ≡ some v)
      × (v.mod2 ≡ true)
      × (count v.my_sem ≡ 0)
      × (step k unload_mod1 v ≡ none)
