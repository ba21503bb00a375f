-- ===== src/Kernel/Booting.antt =====
-- main from the mount to the shutdown, for any way to mount, to log in and to use the shell.
use lunix.Base.{ap, ℕ, ◌==◌, ◌≡◌, refl, true, false}
use lunix.Base.Text.{Text, codes}
use lunix.Stream.{stream}
use lunix.Security.{Console, initialize}
use lunix.Security.Accepted.{user_named}
use lunix.ErrorHandler.{run_system}
use lunix.Machine.{put_out, Host, Machine, exits, continue}
use lunix.Machine.Ends.{Arrives, Returns, Returns-returns, Returns-continue, Holds}
use lunix.Disk
use lunix.Kernel.Runlevel.{boot_crl, crlrq}
use lunix.Lsh.Script.{InShell}
use lunix.Lsh.Shell.{Net, lsh_start, lsh_loop, log_in}
use lunix.Kernel.Start.{
  check_sudo, shutdown, boot, boot_shell, start, test, start_network, start_disk, terminate, main,
}

module _ {S : Type 0} (host : Host S) where
  -- The files behind the test of the network.
  abbrev pub tested : S → S
  tested s = (host.system s (codes "ping -c 1 -W 3 8.8.8.8 > /dev/null 2>&1")).1

  -- rootfs returns, from some files and what is typed to others and what is left.
  abbrev pub Mounts : ℕ → S → Text → S → Text → Type 0
  Mounts fuel s typed t rest =
      (m : Machine S)
      → m.files ≡ s
      → m.input ≡ stream typed
      → Arrives t (stream rest) (Disk.rootfs host fuel m)

module _ {S : Type 0} (host : Host S) (net : Net S) (user : Text) where
  -- initialize lets the user in.
  abbrev pub LogsIn : S → Text → S → Text → Type 0
  LogsIn s typed t rest =
      (c : Console S)
      → c.files ≡ s
      → c.input ≡ stream typed
      → (d : Console S) × (initialize host.os host.sha256 c ≡ (true, d))
        × (d.files ≡ t)
        × (d.input ≡ stream rest)
        × (d.users ≡ user_named user)

  -- The loop of the shell takes what is typed, and ends.
  abbrev pub Takes : ℕ → S → Text → S → Text → Type 0
  Takes fuel s rest t more =
      (root : Text) (n : Machine S)
      → InShell (user_named user) s rest n
      → Returns (λ a. InShell (user_named user) t more) (lsh_loop host net fuel root n)

  module _ (fuel : ℕ) (typed rest more : Text) (s t u : S) (logs : LogsIn s typed t rest)
      (takes : Takes fuel t rest u more) where
    lsh_start-InShell :
        (m : Machine S)
        → m.files ≡ s
        → m.input ≡ stream typed
        → Returns (λ a. InShell (user_named user) u more) (lsh_start host net fuel m)
    unfolding lsh_start log_in crlrq
    lsh_start-InShell m files input =
        let (d, e, f, left, users) = logs m.console files input in
        rw e (
          Returns-continue (λ a. InShell (user_named user) u more) _ _ _
            (takes _ _ (record { files = f; typed = left; users = users; runlevel = refl }))
            (λ a n h. h))

  module _ (fuel : ℕ) (typed rest more : Text) (s t u : S)
      (logs : LogsIn (tested host s) typed t rest) (takes : Takes fuel t rest u more) where
    boot_shell-InShell :
        (m : Machine S)
        → Holds s (stream typed) m
        → Returns (λ a. InShell (user_named user) u more) (boot_shell host net fuel m)
    unfolding boot_shell boot_crl start_network start_disk test run_system Disk.ftest
    boot_shell-InShell m here =
        Returns-continue (λ a. InShell (user_named user) u more) _ _ _
          (lsh_start-InShell fuel typed rest more (tested host s) t u logs takes _
            (ap (tested host) here.files) here.typed)
          (λ a n h. h)

    boot-InShell :
        (before : Text) (m : Machine S)
        → (host.geteuid == 0) ≡ false
        → m.input ≡ stream before
        → Mounts host fuel m.files before s typed
        → Returns (λ a. InShell (user_named user) u more) (boot host net fuel m)
    unfolding boot boot_crl check_sudo
    boot-InShell before m other input mounts = rw other (
        Returns-continue (λ a. Holds s (stream typed)) _ _ _ (mounts _ refl input)
          (λ a n here. boot_shell-InShell n here))

    -- The process behind such a session: it ends with status 0, at runlevel 0.
    pub main-InShell :
        (before : Text) (m : Machine S)
        → (host.geteuid == 0) ≡ false
        → m.input ≡ stream before
        → Mounts host fuel m.files before s typed
        → (n : Machine S) × (main host net fuel m ≡ exits 0 n)
          × (n.boot_runlevel ≡ 0)
          × InShell (user_named user) u more n
    unfolding main start shutdown boot_crl Disk.umount
    main-InShell before m other input mounts =
        let loading : Machine S = put_out (codes "Loading the kernel...\n") m in
        let (a, n, e, h) =
          Returns-returns (λ a. InShell (user_named user) u more) (boot host net fuel loading)
            (boot-InShell before loading other input mounts) in
        (
          _,
          ap (λ r. terminate host (continue r (λ b. shutdown host))) e,
          refl,
          record { files = h.files; typed = h.typed; users = h.users; runlevel = h.runlevel },
        )
