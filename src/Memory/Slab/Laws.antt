-- ===== src/Memory/Slab/Laws.antt =====
-- memory/dedicated_slab.c: the buckets are never given back.
use kernel_examples.Prelude.{◌≡◌, refl, Bool, true, false, some}
use kernel_examples.Prelude.Int.{ℤ, pos}
use kernel_examples.Kernel.{Ledger, acquire, buffer, buckets, fail, enomem, release-acquire}
use kernel_examples.Memory.Slab.{Answers, my_init, my_exit}

-- How loading ends, by whether the buckets and the memory were granted, and then unloading.
abbrev pub SlabEnds : Bool → Bool → Ledger → ℤ × Ledger → Type 0
SlabEnds false alloc l r = r ≡ (fail enomem, l)
SlabEnds true false l r = r ≡ (fail enomem, acquire buckets l)
SlabEnds true true l r = (r.0 ≡ pos 0) × (my_exit r.1 ≡ some (acquire buckets l))

abbrev answers : Bool → Bool → Answers
answers c a = record { kmem_buckets_create = c; kmem_buckets_alloc = a }

slab_ends : (c a : Bool) (l : Ledger) → SlabEnds c a l (my_init (answers c a) l)
unfolding my_init my_exit
slab_ends false a l = refl
slab_ends true false l = refl
slab_ends true true l = (refl, release-acquire buffer (acquire buckets l))

-- Loading returns -ENOMEM without the buckets or the memory, and 0 with both. Once the buckets were
-- made they stay: neither the error path nor unloading gives them back; unloading gives back the
-- memory.
my_init-SlabEnds :
    (k : Answers) (l : Ledger) → SlabEnds k.kmem_buckets_create k.kmem_buckets_alloc l (my_init k l)
my_init-SlabEnds k l = slab_ends k.kmem_buckets_create k.kmem_buckets_alloc l
