-- ===== src/Kernel/Start.antt =====
-- kernel.cpp without crl, network.cpp and main.cpp: from the start of the process to its end.
use lunix.Base.{ℕ, ◌==◌, if◌then◌else◌, [], ◌∷◌, ◌++◌}
use lunix.Base.Text.{Text, codes, join, endl}
use lunix.Base.Int.{ℤ, pos}
use lunix.Color.{reset, red, green, yellow, cyan}
use lunix.Machine.{
  Host, Run, M, returns, throws, exits, spent, ◌>>=◌, ◌>>◌, pure, exit, skip, print,
}
use lunix.ErrorHandler.{panic, run_system, handle_signal, sigabrt}
use lunix.Disk
use lunix.Kernel.Runlevel.{boot_crl}
use lunix.Lsh.Shell.{Net, lsh_start}
use lunix.Lsh.Branches.{succeeded}

module _ {S : Type 0} (host : Host S) where
  unfoldable pub halt : Text → M S (Unit {0})
  halt reason = do
    print (join (endl ∷ codes "System cannot continue: " ∷ reason ∷ codes " Halted.\n" ∷ []))
    exit 0

  unfoldable pub check_sudo : M S (Unit {0})
  check_sudo =
      if host.geteuid == 0 then (panic host (codes "Ran as user ID 0 (root)!") >> exit 0) else skip

  -- network::test
  unfoldable pub test : M S ℤ
  test = do
    print (codes "         Testing network... (Ctrl+C to cancel)\n")
    result ← run_system host (codes "ping -c 1 -W 3 8.8.8.8 > /dev/null 2>&1")
    pure (if result == 0 then pos 0 else pos 1)

  unfoldable pub shutdown : M S (Unit {0})
  shutdown = do
    print (join (yellow ∷ codes "\nSystem is going down NOW!\n" ∷ reset ∷ []))
    print (codes "Sending shutdown signals to all processes...\n")
    print (codes "Unmounting all filesystems...")
    Disk.umount host
    print (codes "done\n")
    print (codes "Spinning down disks...\n")
    boot_crl 0
    print (join (cyan ∷ codes "It is now safe to turn off your computer.\n\n" ∷ reset ∷ []))
    exit 0

  abbrev pub ok_mark : Text
  ok_mark = join (codes "[  " ∷ green ∷ codes "OK" ∷ reset ∷ codes "  ] " ∷ [])

  abbrev pub failed_mark : Text
  failed_mark = join (codes "[" ∷ red ∷ codes "FAILED" ∷ reset ∷ codes "] " ∷ [])

  unfoldable pub start_network : M S (Unit {0})
  start_network = do
    result ← test
    print (
        if succeeded result
        then ok_mark ++ codes "Started and tested network\n"
        else failed_mark ++ codes "Failed to test network\n")

  unfoldable pub start_disk : M S (Unit {0})
  start_disk = do
    print (codes "         Testing disk reliability...")
    result ← Disk.ftest host
    print (
        if succeeded result
        then ok_mark ++ codes "Disk test PASS\n"
        else failed_mark ++ codes "Disk test FAIL, currect directory might be write protected\n")

  -- From the mounted root file system to the end of the shell, whose fuel it takes.
  unfoldable pub boot_shell : Net S → ℕ → M S (Unit {0})
  boot_shell net fuel = do
    boot_crl 2
    print endl
    start_network
    start_disk
    print endl
    boot_crl 3
    print (
        join (
          codes "Started the "
          ∷ cyan
          ∷ codes "Lunix"
          ∷ reset
          ∷ codes " OS successfully. Welcome!\n"
          ∷ []))
    lsh_start host net fuel
    skip

  -- From the first line to the end of the shell; the fuel is that of rootfs and of the shell.
  unfoldable pub boot : Net S → ℕ → M S (Unit {0})
  boot net fuel = do
    print reset
    print (codes "\nStarting the Lunar kernel...\n")
    boot_crl 1
    check_sudo
    print (codes "An initial boot image isn't configured.\n")
    print (codes "Mounting root filesystem...")
    Disk.rootfs host fuel
    boot_shell net fuel

  unfoldable pub start : Net S → ℕ → M S (Unit {0})
  start net fuel = do boot net fuel; shutdown

  -- main returns, or exit ends it. An exception that nobody catches aborts the process, and SIGABRT has a handler.
  abbrev pub terminate : Run S (Unit {0}) → Run S (Unit {0})
  terminate (returns a m) = returns a m
  terminate (throws m) = handle_signal host sigabrt m
  terminate (exits n m) = exits n m
  terminate spent = spent

  unfoldable pub main : Net S → ℕ → M S (Unit {0})
  main net fuel m = terminate ((print (codes "Loading the kernel...\n") >> start net fuel) m)
