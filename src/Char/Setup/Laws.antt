-- ===== src/Char/Setup/Laws.antt =====
-- char_dev: what loading and unloading leave of the kernel's objects.
use kernel_examples.Prelude.{
  ℕ, ◌≡◌, refl, ◌∙◌, arith, Bool, true, false, not, Option, none, some, if◌then◌else◌, ◌&&◌,
}
use kernel_examples.Prelude.Int.{pos, negsuc}
use kernel_examples.Kernel.{
  Ledger, acquire, region, cdev, cdev_memory, buffer, class, device, release-acquire,
  release-acquire_under, acquire_comm, release_all-acquire_all, release_not_held, acquire_other,
}
use kernel_examples.Char.Setup.{
  Answers, Driver, Result, udev_init, udev_exit, dynamic_init, dynamic_exit, mychar_init,
  mychar_exit,
}

-- What is held after a load that failed is `left`; after one that succeeded, unloading leaves `l`.
abbrev pub Leaves : (Driver → Option Ledger) → Ledger → Ledger → Result → Type 0
Leaves exit l left none = ⊥
Leaves exit l left (some (pos _, d)) = exit d ≡ some l
Leaves exit l left (some (negsuc _, d)) = d.held ≡ left

abbrev answers : Bool → Bool → Bool → Bool → Answers
answers r c m a = record { chrdev_region = r; cdev_alloc = c; kmalloc = m; cdev_add = a }

-- What a failed load of mydynamic.c does not give back.
abbrev pub dynamic_left : Answers → Ledger → Ledger
dynamic_left k l =
    if k.chrdev_region && (k.cdev_alloc && not k.cdev_add) then acquire cdev_memory l else l

dynamic_clean :
    (r c m a : Bool) (d : Driver)
    → Leaves dynamic_exit
        (acquire cdev_memory d.held)
        (dynamic_left (answers r c m a) d.held)
        (dynamic_init (answers r c m a) d)
unfolding dynamic_init dynamic_exit
dynamic_clean false c m a d = refl
dynamic_clean true false m a d = rw (release-acquire region d.held)
dynamic_clean true true false false d = rw (
  acquire_comm cdev_memory region d.held,
  release-acquire cdev (acquire region (acquire cdev_memory d.held)),
  release-acquire region (acquire cdev_memory d.held),
)
dynamic_clean true true false true d = rw (
  acquire_comm cdev_memory region d.held,
  release-acquire cdev (acquire region (acquire cdev_memory d.held)),
  release-acquire region (acquire cdev_memory d.held),
)
dynamic_clean true true true false d = rw (
  acquire_comm cdev_memory region d.held,
  release-acquire_under cdev buffer (acquire region (acquire cdev_memory d.held)),
  release-acquire_under region buffer (acquire cdev_memory d.held),
  release-acquire buffer (acquire cdev_memory d.held),
)
dynamic_clean true true true true d = rw (
  acquire_comm cdev_memory region d.held,
  release-acquire_under cdev buffer (acquire region (acquire cdev_memory d.held)),
  release-acquire_under region buffer (acquire cdev_memory d.held),
  release-acquire buffer (acquire cdev_memory d.held),
)

dynamic_init_clean :
    (k : Answers) (d : Driver)
    → Leaves dynamic_exit (acquire cdev_memory d.held) (dynamic_left k d.held) (dynamic_init k d)
dynamic_init_clean k d = dynamic_clean k.chrdev_region k.cdev_alloc k.kmalloc k.cdev_add d

-- What a failed load of mydynamic_udev.c does not give back.
abbrev pub udev_left : Answers → Ledger → Ledger
udev_left k l =
    if k.chrdev_region && (k.cdev_alloc && not k.cdev_add)
    then (let left = acquire cdev (acquire cdev_memory l) in
        if k.kmalloc then acquire buffer left else left)
    else l

udev_clean :
    (count : ℕ) (r c m a : Bool) (d : Driver)
    → Leaves
        (udev_exit count)
        (acquire cdev_memory d.held)
        (udev_left (answers r c m a) d.held)
        (udev_init count (answers r c m a) d)
unfolding udev_init udev_exit
udev_clean count false c m a d = refl
udev_clean count true false m a d = rw (release-acquire region d.held)
udev_clean count true true false false d = rw (
  acquire_comm cdev_memory region d.held,
  acquire_comm cdev region (acquire cdev_memory d.held),
  release-acquire region (acquire cdev (acquire cdev_memory d.held)),
)
udev_clean count true true true false d = rw (
  acquire_comm cdev_memory region d.held,
  acquire_comm cdev region (acquire cdev_memory d.held),
  release-acquire_under region buffer (acquire cdev (acquire cdev_memory d.held)),
)
udev_clean count true true false true d =
    let l = acquire region (acquire cdev_memory d.held) in
    rw (
      acquire_comm cdev_memory region d.held,
      release_all-acquire_all device count 0 (acquire class (acquire cdev l)),
      release-acquire class (acquire cdev l),
      release-acquire cdev l,
      release-acquire region (acquire cdev_memory d.held),
    )
udev_clean count true true true true d =
    let l = acquire region (acquire cdev_memory d.held) in
    rw (
      acquire_comm cdev_memory region d.held,
      release_all-acquire_all device count 0 (acquire class (acquire buffer (acquire cdev l))),
      release-acquire class (acquire buffer (acquire cdev l)),
      release-acquire_under cdev buffer l,
      release-acquire_under region buffer (acquire cdev_memory d.held),
      release-acquire buffer (acquire cdev_memory d.held),
    )

udev_init_lem :
    (count : ℕ) (k : Answers) (d : Driver)
    → Leaves
        (udev_exit count)
        (acquire cdev_memory d.held)
        (udev_left k d.held)
        (udev_init count k d)
udev_init_lem count k d = udev_clean count k.chrdev_region k.cdev_alloc k.kmalloc k.cdev_add d

-- How loading and unloading mychar.c end, by whether the region and the cdev were granted.
abbrev pub MycharEnds : Bool → Bool → Driver → Result → Type 0
MycharEnds region_granted false d r = r ≡ none
MycharEnds true true d r =
    (d' : Driver) × (r ≡ some (pos 0, d')) × (mychar_exit d' ≡ some (acquire cdev_memory d.held))
MycharEnds false true d r = (d' : Driver) × (r ≡ some (pos 0, d')) × (mychar_exit d' ≡ none)

abbrev loaded : Bool → Ledger → Driver
loaded m l = record { my_cdev = true; kbuf = m; held = l }

mychar_ends :
    (r c m a : Bool) (d : Driver)
    → d.held region ≡ 0
    → MycharEnds r c d (mychar_init (answers r c m a) d)
unfolding mychar_init mychar_exit
mychar_ends r false m a d h = refl
mychar_ends true true false a d h = (
  loaded false (acquire cdev (acquire cdev_memory (acquire region d.held))),
  refl,
  rw (
    acquire_comm cdev_memory region d.held,
    release-acquire cdev (acquire region (acquire cdev_memory d.held)),
    release-acquire region (acquire cdev_memory d.held),
  ),
)
mychar_ends true true true a d h = (
  loaded true (acquire cdev (acquire cdev_memory (acquire region (acquire buffer d.held)))),
  refl,
  rw (
    acquire_comm cdev_memory region (acquire buffer d.held),
    release-acquire cdev (acquire region (acquire cdev_memory (acquire buffer d.held))),
    release-acquire region (acquire cdev_memory (acquire buffer d.held)),
    release-acquire_under buffer cdev_memory d.held,
  ),
)
mychar_ends false true false a d h = (
  loaded false (acquire cdev (acquire cdev_memory d.held)),
  refl,
  rw (
    release-acquire cdev (acquire cdev_memory d.held),
    release_not_held region (acquire cdev_memory d.held)
        (acquire_other cdev_memory region d.held (omega arith) ∙ h),
  ),
)
mychar_ends false true true a d h = (
  loaded true (acquire cdev (acquire cdev_memory (acquire buffer d.held))),
  refl,
  rw (
    release-acquire cdev (acquire cdev_memory (acquire buffer d.held)),
    release_not_held region (acquire cdev_memory (acquire buffer d.held)) (
        acquire_other cdev_memory region (acquire buffer d.held) (omega arith)
        ∙ acquire_other buffer region d.held (omega arith)
        ∙ h),
  ),
)

mychar_init_lem :
    (k : Answers) (d : Driver)
    → d.held region ≡ 0
    → MycharEnds k.chrdev_region k.cdev_alloc d (mychar_init k d)
mychar_init_lem k d h = mychar_ends k.chrdev_region k.cdev_alloc k.kmalloc k.cdev_add d h

-- How the three drivers load and unload, whatever the kernel grants, with no region held before.
-- Unloading mydynamic.c or mydynamic_udev.c gives back what loading took, the devices included,
-- except the memory of the cdev. A load of theirs that fails has given everything back, unless it is
-- cdev_add that failed: then the memory of the cdev stays, and with mydynamic_udev.c the cdev too, and
-- the buffer if there was one. mychar.c looks at no answer: with a region and a cdev, unloading gives
-- back all but the memory of the cdev; without the region loading still returns 0, and unloading then
-- gives back a region that is not held; without the cdev loading uses a null pointer.
pub inits_leave :
    (count : ℕ) (k : Answers) (d : Driver)
    → d.held region ≡ 0
    → Leaves dynamic_exit (acquire cdev_memory d.held) (dynamic_left k d.held) (dynamic_init k d)
      × Leaves
          (udev_exit count)
          (acquire cdev_memory d.held)
          (udev_left k d.held)
          (udev_init count k d)
      × MycharEnds k.chrdev_region k.cdev_alloc d (mychar_init k d)
inits_leave count k d h = (dynamic_init_clean k d, udev_init_lem count k d, mychar_init_lem k d h)
