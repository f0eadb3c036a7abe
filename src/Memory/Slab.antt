-- ===== src/Memory/Slab.antt =====
-- memory/dedicated_slab.c: an allocation from buckets of its own.
pub mod Laws
use kernel_examples.Prelude.{Bool, not, Option, none, some, if◌then◌else◌, ◌>>=◌}
use kernel_examples.Prelude.Int.{ℤ, pos}
use kernel_examples.Kernel.{Ledger, acquire, release, buffer, buckets, fail, enomem}

-- Whether the buckets and the memory are granted.
pub record Answers : Type 0 where
  pub kmem_buckets_create : Bool
  pub kmem_buckets_alloc : Bool

-- What my_init returns, and what is held.
pub my_init : Answers → Ledger → ℤ × Ledger
my_init k l =
    if not k.kmem_buckets_create
    then (fail enomem, l)
    else if not k.kmem_buckets_alloc
    then (fail enomem, acquire buckets l)
    else (pos 0, acquire buffer (acquire buckets l))

pub my_exit : Ledger → Option Ledger
my_exit l = release buffer l
