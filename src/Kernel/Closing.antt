-- ===== src/Kernel/Closing.antt =====
-- The whole process on an input whose last line is ":wq!".
use lunix.Disk.{is_yes}
use lunix.Disk.Mount.{is_answer, IsMissing, second}
use lunix.Disk.Closing.{make_rootfs-IsClosing}
use lunix.Stream.Closing.Reads.{getline-Whole}
use lunix.Stream.{getline, newline}
use lunix.Base.{
  [], ◌⊎◌, inl, inr, Bool-cases, zero, length, ◌∙◌, arith, refl, ◌==◌, if_intro, ℕ, suc, ◌<◌, ◌≡◌,
  true,
}
use lunix.Base.Text.{Text, codes}
use lunix.Stream.Closing.Words.{Whole-Loose}
use lunix.Stream.Lines.{lines}
use lunix.Stream.Closing.{is_closed}
use lunix.ErrorHandler.{sigabrt, signal_name}
use lunix.Stream.{stream, Stream}
use lunix.Machine.{throws, returns, M, Machine, Host, Run, exits, spent, continue}
use lunix.Machine.Closing.{IsClosing-then, IsClosing, Settles, closing_rules, Settles-continue}
use lunix.ErrorHandler.Oops.{panic-exits}
use lunix.ErrorHandler.Closing.{panic-IsClosing, run_system-IsClosing}
use lunix.Disk.Closing.{mount-IsClosing}
use lunix.Disk
use lunix.Lsh.Editor.{quit_line}
use lunix.Lsh.Shell.{Net}
use lunix.Lsh.Closing.{ClosingNet, AfterWord}
use lunix.Lsh.Closing.Loop.{lsh_start-IsClosing}
use lunix.Kernel.Ending.{shutdown-exits}
use lunix.ErrorHandler.Signals.{handle_signal_panics}
use lunix.Kernel.Runlevel.{boot_crl}
use lunix.Kernel.Start.{
  shutdown, terminate, boot_shell, check_sudo, test, start_network, start_disk, boot, start, main,
}

module _ {S A : Type 0} where
  -- The call ends the process: with status 0 where the kernel that main started is at runlevel 0, or
  -- with status 1.
  abbrev pub EndsProcess : Run S A → Type 0
  EndsProcess (returns a m) = ⊥
  EndsProcess (throws m) = ⊥
  EndsProcess (exits n m) = ((n ≡ 0) × (m.boot_runlevel ≡ 0)) ⊎ (n ≡ 1)
  EndsProcess spent = ⊥

module _ {S : Type 0} (host : Host S) where
  boot_crl-IsClosing : (Q : Stream → Type 0) (rl : ℕ) → IsClosing Q (boot_crl {S = S} rl)
  unfolding boot_crl
  boot_crl-IsClosing Q rl = record { at = λ m h. h }

  start_network-IsClosing : (Q : Stream → Type 0) → IsClosing Q (start_network host)
  start_network-IsClosing Q =
      unfold start_network in unfold test in search (closing_rules, run_system-IsClosing) depth 9

  start_disk-IsClosing : (Q : Stream → Type 0) → IsClosing Q (start_disk host)
  start_disk-IsClosing Q = unfold start_disk in unfold Disk.ftest in search closing_rules depth 9

  -- The root file system is there.
  abbrev pub IsPresent : Machine S → Type 0
  IsPresent m = host.exists m.files (host.absolute m.files (codes "rootfs")) ≡ true

  rootfs-present :
      (Q : Stream → Type 0) (fuel : ℕ) (m : Machine S)
      → IsPresent m
      → Q m.input
      → Settles (λ n. Q n.input) (Disk.rootfs host (suc fuel) m)
  unfolding Disk.rootfs
  rootfs-present Q fuel m there h = rw there ((mount-IsClosing host Q _ _).at _ h)

  -- The question of rootfs is answered at once.
  abbrev pub IsAnswered : Machine S → Type 0
  IsAnswered m = is_answer (getline newline [] m.input).0 ≡ true

  rootfs-answered :
      (k fuel : ℕ) (m : Machine S)
      → IsMissing host m
      → IsAnswered m
      → AfterWord k m.input
      → Settles (λ n. AfterWord k n.input) (Disk.rootfs host (suc fuel) m)
  unfolding Disk.rootfs
  rootfs-answered k fuel m missing answer h =
      let reply = (getline newline [] m.input).0 in
      let w : AfterWord k (getline newline [] m.input).1 =
        Whole-Loose quit_line (getline-Whole quit_line k [] m.input h.within) in
      let Q = AfterWord k in
      elim (Bool-cases (is_yes reply)) [
        | inl yes_ ↦
            rw (missing, yes_)
              ((IsClosing-then Q _ _ (make_rootfs-IsClosing host Q _)
                  (mount-IsClosing host Q _ _)).at
                _ w)
        | inr not_yes ↦
            rw (missing, not_yes, second (is_yes reply) not_yes answer)
              ((IsClosing-then Q _ _ (panic-IsClosing host Q _) (mount-IsClosing host Q _ _)).at _
                w)
      ]

  -- The root file system is there, or the question whether to make it is answered at once.
  abbrev pub CanMount : Machine S → Type 0
  CanMount m = IsPresent m ⊎ IsAnswered m

  rootfs-Settles :
      (k fuel : ℕ) (m : Machine S)
      → CanMount m
      → AfterWord k m.input
      → Settles (λ n. AfterWord k n.input) (Disk.rootfs host (suc fuel) m)
  rootfs-Settles k fuel m (inl there) h = rootfs-present (AfterWord k) fuel m there h
  rootfs-Settles k fuel m (inr answer) h =
      elim (Bool-cases (host.exists m.files (host.absolute m.files (codes "rootfs")))) [
        | inl there ↦ rootfs-present (AfterWord k) fuel m there h
        | inr missing ↦ rootfs-answered k fuel m missing answer h
      ]

  -- check_sudo ends the process or changes nothing.
  check_sudo-Settles :
      (P : Machine S → Type 0) (m : Machine S) → P m → Settles P (check_sudo host m)
  unfolding check_sudo
  check_sudo-Settles P m h =
      if_intro (λ (c : M S (Unit {0})). Settles P (c m)) (host.geteuid == 0) _ _
        (λ root. rw (panic-exits host (codes "Ran as user ID 0 (root)!") m).1 (omega arith))
        (λ user. h)

  module _ (net : Net S) (closing : ClosingNet net) (k : ℕ) where
    boot_shell-IsClosing :
        (fuel : ℕ) → k < fuel → IsClosing (AfterWord k) (boot_shell host net fuel)
    boot_shell-IsClosing fuel enough =
        unfold boot_shell in
        search
          (
            closing_rules,
            boot_crl-IsClosing,
            start_network-IsClosing,
            start_disk-IsClosing,
            lsh_start-IsClosing host net closing,
          )
          depth 16

    boot-Settles :
        (fuel : ℕ) (m : Machine S)
        → CanMount m
        → AfterWord k m.input
        → k < suc fuel
        → Settles (λ n. AfterWord k n.input) (boot host net (suc fuel) m)
    unfolding boot boot_crl
    boot-Settles fuel m there h enough =
        Settles-continue (λ n. CanMount n × AfterWord k n.input) (λ n. AfterWord k n.input) _ _
          (check_sudo-Settles _ _ (there, h))
          (λ a n here.
            Settles-continue (λ o. AfterWord k o.input) (λ o. AfterWord k o.input) _ _
              (rootfs-Settles k fuel _ here.0 here.1)
              (λ b. (boot_shell-IsClosing (suc fuel) enough).at))

    terminate-Settles :
        (r : Run S (Unit {0}))
        → Settles (λ n. AfterWord k n.input) r
        → EndsProcess (terminate host (continue r (λ a. shutdown host)))
    terminate-Settles (returns a m) h =
        let (o, e, down, same) = shutdown-exits host m in rw e (inl (refl, down))
    terminate-Settles (throws m) h =
        let (o, e) = panic-exits host (signal_name sigabrt) m in
        rw (handle_signal_panics host sigabrt m ∙ e) (inr refl)
    terminate-Settles (exits n m) h = inr h
    terminate-Settles spent h = h

  -- Whatever the network is, as long as its calls end and keep the last line of the input.
  pub main-closing :
      (net : Net S) (fuel : ℕ) (s : Text) (m : Machine S)
      → ClosingNet net
      → CanMount m
      → m.input ≡ stream s
      → is_closed quit_line (lines s) ≡ true
      → length s < fuel
      → EndsProcess (main host net fuel m)
  unfolding main start
  main-closing net zero s m closing there typed closed enough = absurd (omega arith)
  main-closing net (suc fuel) s m closing there typed closed enough =
      terminate-Settles net closing (length s) _ (
        boot-Settles net closing (length s) fuel _ there
          (rw typed (Whole-Loose quit_line (record { closed = closed; short = omega arith })))
          enough)
