-- ===== src/Sync/Spin/Threads.antt =====
-- synchronization/spindead.c: how the threads are made. The cpus that are online, and whether the
-- kernel makes a thread, or with which error not, are its arguments.
use kernel_examples.Prelude.{
  ℕ, ◌≡◌, refl, ap, Option, Option-cases, inl, inr, none, some, List, [], ◌∷◌, map,
}
use kernel_examples.Prelude.Int.{ℤ, pos}
use kernel_examples.Kernel.{fail}

-- The function's argument, the cpu that the thread is bound to, and the one that is noted for unparking.
pub record Thread : Type 0 where
  pub data_ : ℕ
  pub bound : ℕ
  pub kthread_cpu : ℕ

-- An error number, or the thread.
pub data Task : Type 0 where
  error : ℕ → Task
  thread : Thread → Task

module _ (kthread_create_on_node : ℕ → Option ℕ) where
  pub kthread_create_on_cpu : ℕ → ℕ → Task
  kthread_create_on_cpu data_ cpu = elim (kthread_create_on_node cpu) [
    | some e ↦ error e
    | none ↦ thread (record { data_ = data_; bound = cpu; kthread_cpu = cpu })
  ]

  -- The loop over the cpus that are online: what is returned, and the threads that were woken, in order.
  pub create_kernel_threads : List ℕ → ℤ × List Thread
  create_kernel_threads [] = (pos 0, [])
  create_kernel_threads (cpu ∷ cpus) =
      let (ret, threads) = create_kernel_threads cpus in
      elim (kthread_create_on_cpu cpu cpu) [
        | error e ↦ (fail e, [])
        | thread p ↦ (ret, p ∷ threads)
      ]

  -- What create_kernel_threads returns is dropped.
  pub my_init : List ℕ → ℤ × List Thread
  my_init cpus = (pos 0, (create_kernel_threads cpus).1)

  abbrev pub thread_of : ℕ → Thread
  thread_of cpu = record { data_ = cpu; bound = cpu; kthread_cpu = cpu }

  -- The cpus before the first that has no thread.
  abbrev pub granted : List ℕ → List ℕ
  granted [] = []
  granted (cpu ∷ cpus) =
      let later = granted cpus in
      elim (kthread_create_on_node cpu) [ some e ↦ [] | none ↦ cpu ∷ later ]

  -- Each cpu up to the first that has no thread has one, bound to it; loading succeeds all the same.
  my_init_lem : (cpus : List ℕ) → my_init cpus ≡ (pos 0, map thread_of (granted cpus))
  unfolding my_init create_kernel_threads kthread_create_on_cpu
  my_init_lem [] = refl
  my_init_lem (cpu ∷ cpus) = elim (Option-cases (kthread_create_on_node cpu)) [
    | inl made ↦
        rw (my_init, create_kernel_threads, kthread_create_on_cpu, granted, made)
          (ap (λ r. (pos 0, thread_of cpu ∷ r.1)) (my_init_lem cpus))
    | inr (e, refused) ↦
        rw (my_init, create_kernel_threads, kthread_create_on_cpu, granted, refused) refl
  ]
