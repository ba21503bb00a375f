-- ===== src/Kernel/FirstBoot.antt =====
-- The first boot: no root file system, no password file, and nobody who can log in yet.
use lunix.Base.{ℕ, suc, ◌==◌, ◌≡◌, refl, subst, sym, false, ◌∷◌, [], ◌++◌, some, arith}
use lunix.Base.Text.{Text, codes}
use lunix.Stream.{stream, newline}
use lunix.Stream.Lines.{Lacks}
use lunix.Os.{FileLaws}
use lunix.Security.{passwd_name, passwd_line}
use lunix.Security.Accepted.{user_named}
use lunix.Security.Accounts.{Represents, grant, no_accounts, line-Represents}
use lunix.Security.Digests.{Sha256Laws}
use lunix.Security.Login.{initialize-created}
use lunix.Machine.{Host, Machine, exits}
use lunix.Machine.Ends.{Arrives}
use lunix.Disk.{rootfs}
use lunix.Disk.Fresh.{IsFresh, rootfs-fresh}
use lunix.Lsh.Script.{IsQuit, lsh_loop-quit}
use lunix.Lsh.Shell.{Net}
use lunix.Kernel.Booting.{tested, Mounts, LogsIn, main-InShell}
use lunix.Kernel.Clean.{logged}
use lunix.Kernel.Start.{main}

-- A new password for root, and a login with it.
abbrev pub registered : Text → Text → Text
registered password rest = password ++ newline ∷ logged (codes "root") password rest

module _ {S : Type 0} (host : Host S) where
  IsFresh-Mounts :
      (fuel : ℕ) (rest : Text) (s : S) (fresh : IsFresh host s)
      → Mounts host (suc fuel) s (codes "y" ++ newline ∷ rest) fresh.installed rest
  IsFresh-Mounts fuel rest s fresh m e typed =
      subst
        (λ s.
          (fresh : IsFresh host s)
          → Arrives fresh.installed (stream rest) (rootfs host (suc fuel) m))
        e (λ fresh. rootfs-fresh host fuel rest m fresh typed) fresh

module _ {S : Type 0} (host : Host S) (net : Net S) (laws : FileLaws host.os)
    (sha : Sha256Laws host.sha256) where
  -- The password file behind the question of createPasswordFile.
  abbrev pub with_root : S → Text → S
  with_root t password = host.write t passwd_name (passwd_line host.sha256 (codes "root") password)

  created-LogsIn :
      (s t : S) (password rest : Text)
      → host.exists s passwd_name ≡ false
      → host.open_truncate s passwd_name ≡ some t
      → Lacks newline password
      → LogsIn host net (codes "root") s (registered password rest) (with_root t password) rest
  created-LogsIn s t password rest absent opens clean c e typed = (
    _,
    initialize-created host.os host.sha256 laws sha c t password rest (rw e absent) (rw e opens)
        clean typed,
    refl,
    refl,
    refl,
  )

  with_root-Represents :
      (s t : S) (password : Text)
      → host.open_truncate s passwd_name ≡ some t
      → Represents host.os laws host.sha256 sha
          (with_root t password)
          (grant host.sha256 (codes "root", password) (no_accounts host.sha256))
  with_root-Represents s t password opens =
      line-Represents host.os laws host.sha256 sha (with_root t password) (codes "root") password
        (laws.read-write t passwd_name [] _ (laws.read-open_truncate s t passwd_name opens))
        (omega arith, omega arith)

  -- Where main does not run under user ID 0, there is no root file system but one can be made, with
  -- its modules, and no password file but one can be made: who answers "y", types a password for root,
  -- logs in as root with that password and types "exit" or "shutdown" makes main end with status 0 at
  -- runlevel 0, having read no further. Then the files let in root with that password, or one of the
  -- same hash, and nobody else. One round of fuel is enough.
  pub main-first_boot :
      (fuel : ℕ) (password line more : Text) (t : S) (m : Machine S) (fresh : IsFresh host m.files)
      → (host.geteuid == 0) ≡ false
      → host.exists (tested host fresh.installed) passwd_name ≡ false
      → host.open_truncate (tested host fresh.installed) passwd_name ≡ some t
      → Lacks newline password
      → IsQuit line
      → m.input ≡ stream (codes "y" ++ newline ∷ registered password (line ++ newline ∷ more))
      → (n : Machine S) × (main host net (suc fuel) m ≡ exits 0 n)
        × (n.boot_runlevel ≡ 0)
        × (n.input ≡ stream more)
        × Represents host.os laws host.sha256 sha n.files
            (grant host.sha256 (codes "root", password) (no_accounts host.sha256))
  main-first_boot fuel password line more t m fresh other absent opens clean quit typed =
      let rest = line ++ newline ∷ more in
      let (n, e, down, h) =
        main-InShell host net (codes "root") (suc fuel) (registered password rest) rest more
          fresh.installed (with_root t password) (with_root t password)
          (created-LogsIn (tested host fresh.installed) t password rest absent opens clean)
          (λ root n h.
            lsh_loop-quit host net line more quit fuel root (user_named (codes "root")) _ n h)
          (codes "y" ++ newline ∷ registered password rest) m other typed
          (IsFresh-Mounts host fuel (registered password rest) m.files fresh) in
      (
        n,
        e,
        down,
        h.typed,
        subst
            (λ s.
              Represents host.os laws host.sha256 sha s
                (grant host.sha256 (codes "root", password) (no_accounts host.sha256)))
            (sym h.files) (with_root-Represents (tested host fresh.installed) t password opens),
      )
