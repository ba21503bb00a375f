-- ===== src/Kernel/Ending.antt =====
-- How the process ends.
use lunix.Base.{[], ◌∷◌, ap, ℕ, ◌≡◌, refl, ◌∙◌, arith}
use lunix.Base.Text.{endl, join, Text, codes}
use lunix.Machine.{put_out, exit, Host, Machine, Run, returns, throws, exits, spent, continue}
use lunix.ErrorHandler.{panic, signal_name, sigabrt}
use lunix.ErrorHandler.Steady.{panic-IsSteady}
use lunix.ErrorHandler.Oops.{panic-exits}
use lunix.ErrorHandler.Signals.{handle_signal_panics}
use lunix.Disk
use lunix.Base.Decimal.{decimal}
use lunix.Color.{reset}
use lunix.Kernel.Runlevel.{boot_crl}
use lunix.Lsh.Shell.{Net}
use lunix.Kernel.Start.{check_sudo, shutdown, boot, start, terminate, main}

module _ {S A : Type 0} where
  -- The call, if it ends, ends the process.
  abbrev pub Exits : Run S A → Type 0
  Exits (returns a m) = ⊥
  Exits (throws m) = ⊥
  Exits (exits n m) = Unit {0}
  Exits spent = Unit {0}

module _ {S : Type 0} (host : Host S) where
  -- shutdown ends the process with status 0 at runlevel 0, and touches no file.
  pub shutdown-exits :
      (m : Machine S)
      → (n : Machine S) × (shutdown host m ≡ exits 0 n)
        × (n.boot_runlevel ≡ 0)
        × (n.files ≡ m.files)
  unfolding shutdown boot_crl Disk.umount
  shutdown-exits m = (_, refl, refl, refl)

  abbrev sudo_reason : Text
  sudo_reason = codes "Ran as user ID 0 (root)!"

  -- A panic ends with status 1 and leaves the runlevels.
  panic-runlevel :
      (reason : Text) (m : Machine S)
      → (n : Machine S) × (panic host reason m ≡ exits 1 n) × (n.boot_runlevel ≡ m.boot_runlevel)
  panic-runlevel reason m =
      let (n, e) = panic-exits host reason m in
      let same = (panic-IsSteady host reason).at m in (n, e, (rw e at same).boot_runlevel)

  check_sudo-zero :
      (m : Machine S)
      → host.geteuid ≡ 0
      → check_sudo host m ≡ continue (panic host sudo_reason m) (λ a. exit 0)
  unfolding check_sudo
  check_sudo-zero m root = ground (arith, root)

  check_sudo-root :
      (m : Machine S)
      → host.geteuid ≡ 0
      → (n : Machine S) × (check_sudo host m ≡ exits 1 n) × (n.boot_runlevel ≡ m.boot_runlevel)
  check_sudo-root m root =
      let (n, e, same) = panic-runlevel sudo_reason m in
      (n, check_sudo-zero m root ∙ ap (λ r. continue r (λ a. exit {A = Unit {0}} 0)) e, same)

  -- The machine that check_sudo meets.
  abbrev started : Machine S → Machine S
  started m =
      let loading = put_out (codes "Loading the kernel...\n") m in
      let starting = put_out (codes "\nStarting the Lunar kernel...\n") (put_out reset loading) in
      put_out (join (codes "Runlevel changed to " ∷ decimal 1 ∷ endl ∷ []))
        (record starting { boot_runlevel = 1 })

  main-check_sudo :
      (net : Net S) (fuel : ℕ) (m n : Machine S)
      → check_sudo host (started m) ≡ exits 1 n
      → main host net fuel m ≡ exits 1 n
  unfolding main start boot boot_crl
  main-check_sudo net fuel m n e = rw e

  -- Under user ID 0 the process ends with status 1, whatever is typed, and the kernel that main
  -- makes is then at runlevel 1.
  main_root :
      (net : Net S) (fuel : ℕ) (m : Machine S)
      → host.geteuid ≡ 0
      → (n : Machine S) × (main host net fuel m ≡ exits 1 n) × (n.boot_runlevel ≡ 1)
  main_root net fuel m root =
      let (n, e, same) = check_sudo-root (started m) root in
      (n, main-check_sudo net fuel m n e, same)

  terminate-Exits :
      (r : Run S (Unit {0})) → Exits (terminate host (continue r (λ a. shutdown host)))
  terminate-Exits (returns a m) = rw (shutdown-exits m).1 tt
  terminate-Exits (throws m) =
      rw (handle_signal_panics host sigabrt m, (panic-exits host (signal_name sigabrt) m).1) tt
  terminate-Exits (exits n m) = tt
  terminate-Exits spent = tt

  -- The process never falls off the end of main and never dies of an exception: whatever is typed
  -- and whatever its host does, if it ends it ends by a call of exit.
  pub main-Exits : (net : Net S) (fuel : ℕ) (m : Machine S) → Exits (main host net fuel m)
  unfolding main start
  main-Exits net fuel m = terminate-Exits _
