-- ===== src/Bootloader/Missing.antt =====
-- The bootloader where a file of the check is not there.
use lunix.Base.{◌≡◌, ◌⊎◌, inl, inr, refl, Bool, true, false, List, none, arith, Bool-cases}
use lunix.Base.Text.{Text, codes}
use lunix.Stream.{Stream}
use lunix.Bootloader.{
  Evp, Result, ok, error, System, End, Options, no_options, options, Check, passed, refused,
  compare_hashes, ends, after_check, check_kernel, compute_sha256, digest, read_sha256_file,
  run_options, boot_main,
}
use lunix.Bootloader.Verified.{built}

abbrev IsError : Result → Type 0
IsError (ok text) = ⊥
IsError (error what) = Unit {0}

abbrev IsRefused : Check → Type 0
IsRefused (passed text) = ⊥
IsRefused (refused text) = Unit {0}

compare_hashes-IsRefused :
    (ignore : Bool) (computed expected : Result)
    → IsError computed ⊎ IsError expected
    → IsRefused (compare_hashes ignore computed expected)
unfolding compare_hashes
compare_hashes-IsRefused ignore (error what) expected h = tt
compare_hashes-IsRefused ignore (ok text) (error what) h = tt
compare_hashes-IsRefused ignore (ok text) (ok text') (inl h) = absurd h
compare_hashes-IsRefused ignore (ok text) (ok text') (inr h) = absurd h

module _ {S C : Type 0} (system : System S) (evp : Evp C) where
  compute_sha256-IsError : (path : Text) → IsError (compute_sha256 evp path none)
  unfolding compute_sha256 digest
  compute_sha256-IsError path = ground arith

  -- kernel.bin or kernel.bin.sha256 is not there.
  abbrev pub IsIncomplete : S → Type 0
  IsIncomplete s =
      (system.read s (codes "kernel.bin") ≡ none)
      ⊎ (system.read s (codes "kernel.bin.sha256") ≡ none)

  check_kernel-IsRefused :
      (ignore : Bool) (s : S) → IsIncomplete s → IsRefused (check_kernel system evp ignore s)
  unfolding check_kernel read_sha256_file
  check_kernel-IsRefused ignore s (inl e) =
      compare_hashes-IsRefused ignore _ _ (inl (rw e (compute_sha256-IsError _)))
  check_kernel-IsRefused ignore s (inr e) = compare_hashes-IsRefused ignore _ _ (inr (rw e tt))

  -- The process ends with status 1.
  abbrev pub Fails : S → End S → Type 0
  Fails s r = (text : Text) × (r ≡ ends 1 text s)

  after_check-Fails :
      (check : Check) (input : Stream) (out : Text) (s : S)
      → IsRefused check
      → Fails s (after_check system check input out s)
  unfolding after_check
  after_check-Fails (passed text) input out s h = absurd h
  after_check-Fails (refused text) input out s h = (_, refl)

  -- The kernel is to be started: neither -r nor -h is given, or -b is.
  abbrev pub IsBoot : Options → Type 0
  IsBoot o = (o.run_post_build ≡ true) ⊎ ((o.recovery_mode ≡ false) × (o.help_mode ≡ false))

  built-Fails :
      (o : Options) (input : Stream) (s : S)
      → o.run_post_build ≡ true
      → IsIncomplete (built system o s)
      → Fails (built system o s) (run_options system evp o input s)
  unfolding run_options
  built-Fails o input s b h =
      rw b
        (after_check-Fails _ input _ _ (check_kernel-IsRefused o.ignore_hash_error _ (rw b at h)))

  unbuilt-Fails :
      (o : Options) (input : Stream) (s : S)
      → o.run_post_build ≡ false
      → o.recovery_mode ≡ false
      → o.help_mode ≡ false
      → IsIncomplete (built system o s)
      → Fails (built system o s) (run_options system evp o input s)
  unfolding run_options
  unbuilt-Fails o input s b r q h =
      rw (b, r, q)
        (after_check-Fails _ input _ _ (check_kernel-IsRefused o.ignore_hash_error _ (rw b at h)))

  run_options-Fails :
      (o : Options) (input : Stream) (s : S)
      → IsBoot o
      → IsIncomplete (built system o s)
      → Fails (built system o s) (run_options system evp o input s)
  run_options-Fails o input s (inl b) h = built-Fails o input s b h
  run_options-Fails o input s (inr (r, q)) h = elim (Bool-cases o.run_post_build) [
    | inl b ↦ built-Fails o input s b h
    | inr b ↦ unbuilt-Fails o input s b r q h
  ]

  -- When the kernel is to be started and kernel.bin or kernel.bin.sha256 is not there, after the
  -- post build script if that was asked for, the bootloader executes nothing and ends with status 1:
  -- the argument --ignore-hash-err makes no difference.
  pub boot_main-Fails :
      (args : List Text) (input : Stream) (s : S)
      → IsBoot (options args no_options)
      → IsIncomplete (built system (options args no_options) s)
      → Fails (built system (options args no_options) s) (boot_main system evp args input s)
  unfolding boot_main
  boot_main-Fails args input s boot h = run_options-Fails (options args no_options) input s boot h
