-- ===== src/Bootloader/Verified.antt =====
-- Which kernels the bootloader starts.
use lunix.Bootloader.{failed, child, killed, read_word}
use lunix.Base.{
  Option-cases, ◌⊎◌, [], ◌∷◌, All, ap, ◌≡◌, refl, ◌∙◌, if◌then◌else◌, Bool, true, false, List,
  arith, Bool-cases, inl, inr,
}
use lunix.Base.Text.{Text, codes, text_eq, text_eq-true}
use lunix.Stream.{Stream}
use lunix.Bootloader.{
  exited, parent, Forked, read_word, launch, ask_kernel, take_option, Evp, Result, ok, error,
  System, Options, no_options, options, Check, passed, refused, compare_hashes, ends, becomes,
  after_check, check_kernel, compute_sha256, read_sha256_file, run_options, boot_main,
}

-- The two hashes are there and are the same.
abbrev pub Agree : Result → Result → Type 0
Agree computed expected = (hash : Text) × (computed ≡ ok hash) × (expected ≡ ok hash)

compare_hashes-passed :
    (computed expected : Result) (text : Text)
    → compare_hashes false computed expected ≡ passed text
    → Agree computed expected
unfolding compare_hashes
compare_hashes-passed (error what) expected text h = absurd (cc h)
compare_hashes-passed (ok computed) (error what) text h = absurd (cc h)
compare_hashes-passed (ok computed) (ok expected) text h =
    elim (Bool-cases (text_eq computed expected)) [
      | inl e ↦ (expected, ap ok (text_eq-true computed expected e), refl)
      | inr e ↦ absurd (cc (rw e at h))
    ]

module _ {S : Type 0} (system : System S) where
  -- The files that the check reads: a post build script may have changed them.
  abbrev pub built : Options → S → S
  built o s = if o.run_post_build then system.system s (codes "./post-build.sh") else s

-- The kernel, or what is typed at the question for its path.
abbrev pub IsProgram : Stream → Text → Type 0
IsProgram input path = (path ≡ codes "./kernel.bin") ⊎ (path ≡ (read_word [] input).0)

becomes-same :
    {S : Type 0} {path path' text text' : Text} {s s' : S}
    → becomes path text s ≡ becomes path' text' s'
    → path' ≡ path
becomes-same h = cc

module _ {S : Type 0} (system : System S) where
  ask_kernel-IsProgram :
      (input : Stream) (what out path text : Text) (s t : S)
      → ask_kernel system input what out s ≡ becomes path text t
      → path ≡ (read_word [] input).0
  unfolding ask_kernel
  ask_kernel-IsProgram input what out path text s t h =
      elim (Option-cases (system.exec s (read_word [] input).0)) [
        | inl done ↦ becomes-same (rw (ask_kernel, done) at h)
        | inr (what', failed_again) ↦ absurd (cc (rw (ask_kernel, failed_again) at h))
      ]

  launch-IsProgram :
      (fork : Forked) (input : Stream) (out path text : Text) (s t : S)
      → launch system fork input out s ≡ becomes path text t
      → IsProgram input path
  unfolding launch
  launch-IsProgram failed input out path text s t h = absurd (cc h)
  launch-IsProgram child input out path text s t h =
      elim (Option-cases (system.exec s (codes "./kernel.bin"))) [
        | inl done ↦ inl (becomes-same (rw (launch, done) at h))
        | inr (what, e) ↦
            inr (ask_kernel-IsProgram input what out path text s t (rw (launch, e) at h))
      ]
  launch-IsProgram (parent (exited status)) input out path text s t h = absurd (cc h)
  launch-IsProgram (parent killed) input out path text s t h = absurd (cc h)

module _ {S C : Type 0} (system : System S) (evp : Evp C) where
  abbrev pub IsVerified : S → Type 0
  IsVerified s =
      Agree (compute_sha256 evp (codes "kernel.bin") (system.read s (codes "kernel.bin")))
        (read_sha256_file (codes "kernel.bin.sha256") (system.read s (codes "kernel.bin.sha256")))

  after_check-becomes :
      (check : Check) (input : Stream) (out path text : Text) (s t : S)
      → after_check system check input out s ≡ becomes path text t
      → (report : Text) × (check ≡ passed report) × IsProgram input path
  unfolding after_check
  after_check-becomes (passed report) input out path text s t h =
      (report, refl, launch-IsProgram system (system.fork s) input _ path text s t h)
  after_check-becomes (refused report) input out path text s t h = absurd (cc h)

  checked-becomes :
      (input : Stream) (out path text : Text) (s t : S)
      → after_check system (check_kernel system evp false s) input out s ≡ becomes path text t
      → IsVerified s × IsProgram input path
  unfolding check_kernel
  checked-becomes input out path text s t h =
      let (report, e, program) = after_check-becomes _ input out path text s t h in
      (compare_hashes-passed _ _ report e, program)

  -- The other branches of the options.
  unbuilt :
      (recovery help : Bool) (input : Stream) (title shown shown' path text : Text) (s s' t : S)
      → (if recovery
          then ends 0 shown s'
          else if help
          then ends 0 shown' s'
          else after_check system (check_kernel system evp false s) input title s)
        ≡ becomes path text t
      → IsVerified s × IsProgram input path
  unbuilt true help input title shown shown' path text s s' t h = absurd (cc h)
  unbuilt false true input title shown shown' path text s s' t h = absurd (cc h)
  unbuilt false false input title shown shown' path text s s' t h =
      checked-becomes input title path text s t h

  run_options-IsVerified :
      (o : Options) (input : Stream) (path text : Text) (s t : S)
      → o.ignore_hash_error ≡ false
      → run_options system evp o input s ≡ becomes path text t
      → IsVerified (built system o s) × IsProgram input path
  unfolding run_options
  run_options-IsVerified o input path text s t strict h = elim (Bool-cases o.run_post_build) [
    | inl e ↦ rw e (checked-becomes input _ path text _ t (rw (e, strict) at h))
    | inr e ↦
        rw e (unbuilt o.recovery_mode o.help_mode input _ _ _ path text s _ t (rw (e, strict) at h))
  ]

  abbrev pub IsStrict : Text → Type 0
  IsStrict arg = text_eq arg (codes "--ignore-hash-err") ≡ false

  options-strict :
      (args : List Text) (o : Options)
      → All IsStrict args
      → (options args o).ignore_hash_error ≡ o.ignore_hash_error
  unfolding options
  options-strict [] o h = refl
  options-strict (arg ∷ args) o h =
      options-strict args (take_option arg o) h.1 ∙ ground (arith, h.0)

  -- With no argument --ignore-hash-err the bootloader executes a program only when the digest of
  -- kernel.bin is the hash that kernel.bin.sha256 begins with, as the files are after the post
  -- build script, if that was asked for. The program is kernel.bin, or the path that is typed at the
  -- question for it, of which the bootloader checks no digest.
  pub boot_main-IsVerified :
      (args : List Text) (input : Stream) (path text : Text) (s t : S)
      → All IsStrict args
      → boot_main system evp args input s ≡ becomes path text t
      → IsVerified (built system (options args no_options) s) × IsProgram input path
  unfolding boot_main
  boot_main-IsVerified args input path text s t strict h =
      run_options-IsVerified (options args no_options) input path text s t
        (options-strict args no_options strict) h
