-- ===== src/Morse/Setup/Laws.antt =====
-- io_port/morse_io.c: what loading leaves, and what unloading gives back.
use kernel_examples.Prelude.{
  ℕ, zero, ◌≡◌, refl, arith, suc, Bool, true, false, Option, some, ◌==◌, ne→==,
}
use kernel_examples.Prelude.Int.{ℤ, pos}
use kernel_examples.Kernel.{
  Ledger, acquire, region, cdev, cdev_memory, class, device, release-acquire,
  release_all-acquire_all, fail,
}
use kernel_examples.Morse.Setup.{Answers, Driver, minor_count, loaded, morse_init, morse_exit}

-- How loading ends, by whether the region and the cdev were granted, and then unloading.
abbrev pub MorseEnds : Bool → Bool → Driver → Option (ℤ × Driver) → Type 0
MorseEnds true true d r =
    (d' : Driver) × (r ≡ some (pos 0, d'))
    × (d'.held ≡ loaded d.held)
    × (morse_exit d' ≡ some d.held)
MorseEnds _ _ d r = (d' : Driver) × (r ≡ some (fail 1, d')) × (d'.held ≡ d.held)

abbrev answers : Bool → ℕ → Bool → Answers
answers r n c = record { chrdev_region = r; dev_major = n; cdev_alloc = c }

morse_exit-loaded :
    (n : ℕ) (l : Ledger) → morse_exit (record { major_no = n; held = loaded l }) ≡ some l
unfolding morse_exit
morse_exit-loaded n l = rw (
  release_all-acquire_all device minor_count 0
      (acquire class (acquire cdev (acquire cdev_memory (acquire region l)))),
  release-acquire class (acquire cdev (acquire cdev_memory (acquire region l))),
  release-acquire cdev (acquire cdev_memory (acquire region l)),
  release-acquire cdev_memory (acquire region l),
  release-acquire region l,
)

positive : (m : ℕ) → (suc m == 0) ≡ false
positive m = ne→== (suc m) 0 (omega arith)

morse_ends :
    (r : Bool) (n : ℕ) (c : Bool) (major_no : ℕ) (l : Ledger)
    → MorseEnds r c
        (record { major_no = major_no; held = l })
        (morse_init (answers r n c) (record { major_no = major_no; held = l }))
unfolding morse_init
morse_ends false n c zero l = (record { major_no = n; held = l }, refl, refl)
morse_ends false n c (suc m) l = (record { major_no = suc m; held = l }, rw (positive m), refl)
morse_ends true n false zero l =
    (record { major_no = n; held = l }, rw (release-acquire region l), refl)
morse_ends true n false (suc m) l =
    (record { major_no = suc m; held = l }, rw (positive m, release-acquire region l), refl)
morse_ends true n true zero l =
    (record { major_no = n; held = loaded l }, refl, refl, morse_exit-loaded n l)
morse_ends true n true (suc m) l = (
  record { major_no = suc m; held = loaded l },
  rw (positive m),
  refl,
  morse_exit-loaded (suc m) l,
)

-- Loading that fails returns -1 and has given everything back. Loading that succeeds holds the region,
-- the cdev with its memory, the class and the three devices; unloading gives back each of them once.
pub morse_init_lem :
    (k : Answers) (d : Driver) → MorseEnds k.chrdev_region k.cdev_alloc d (morse_init k d)
morse_init_lem k d = morse_ends k.chrdev_region k.dev_major k.cdev_alloc d.major_no d.held
