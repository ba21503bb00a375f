-- ===== src/Kernel/LockedOut.antt =====
-- main for somebody who cannot log in.
use lunix.Base.{ℕ, suc, ◌==◌, ◌≡◌, refl, ◌∙◌, ap, true, false, [], ◌∷◌, All}
use lunix.Base.Text.{Text, codes}
use lunix.Stream.{stream}
use lunix.Security.{passwd_name}
use lunix.Security.Accounts.{Account}
use lunix.Security.Refused.{IsRefused, logins, initialize_refused}
use lunix.ErrorHandler.{run_system}
use lunix.Machine.{put_out, Host, Machine, Run, M, returns, throws, exits, spent, continue}
use lunix.Machine.Ends.{Returns, Holds}
use lunix.Disk
use lunix.Disk.There.{IsThere, mounted}
use lunix.Kernel.Booting.{tested}
use lunix.Kernel.Clean.{booted, IsThere-Mounts}
use lunix.Kernel.Runlevel.{boot_crl}
use lunix.Lsh.Shell.{Net, lsh_start, log_in}
use lunix.Kernel.Start.{
  check_sudo, boot, boot_shell, start, test, start_network, start_disk, shutdown, terminate, main,
}

-- With these files and this input, the kernel that main makes waiting for the shell.
pub record IsOut {S : Type 0} (s : S) (rest : Text) (m : Machine S) : Type 0 where
  pub files : m.files ≡ s
  pub left : m.input ≡ stream rest
  pub boot_runlevel : m.boot_runlevel ≡ 3

module _ {S A : Type 0} where
  -- The call ends the process with status 1.
  abbrev Fails : (Machine S → Type 0) → Run S A → Type 0
  Fails P r = (n : Machine S) × (r ≡ exits 1 n) × P n

module _ {S A B : Type 0} where
  Fails-continue :
      (P : Machine S → Type 0) (r : Run S A) (f : A → M S B) → Fails P r → Fails P (continue r f)
  Fails-continue P r f (n, e, h) = (n, ap (λ q. continue q f) e, h)

  Returns-Fails :
      (P : A → Machine S → Type 0) (Q : Machine S → Type 0) (r : Run S A) (f : A → M S B)
      → Returns P r
      → ((a : A) (m : Machine S) → P a m → Fails Q (f a m))
      → Fails Q (continue r f)
  Returns-Fails P Q (returns a m) f h k = k a m h
  Returns-Fails P Q (throws m) f h k = absurd h
  Returns-Fails P Q (exits n m) f h k = absurd h
  Returns-Fails P Q spent f h k = absurd h

module _ {S : Type 0} (host : Host S) (first second third : Account) where
  -- The password file is there, and refuses each of the three.
  pub record IsClosed (s : S) : Type 0 where
    pub there : host.exists s passwd_name ≡ true
    pub refused : All (IsRefused host.os host.sha256 s) (first ∷ second ∷ third ∷ [])

module _ {S : Type 0} (host : Host S) (net : Net S) (first second third : Account)
    (rest : Text) where
  abbrev tries : Text
  tries = logins (first ∷ second ∷ third ∷ []) rest

  lsh_start-Fails :
      (fuel : ℕ) (s : S) (m : Machine S)
      → IsClosed host first second third s
      → m.files ≡ s
      → m.input ≡ stream tries
      → m.boot_runlevel ≡ 3
      → Fails (IsOut s rest) (lsh_start host net fuel m)
  unfolding lsh_start log_in
  lsh_start-Fails fuel s m closed e typed level =
      let (out, stays) =
        initialize_refused host.os host.sha256 first second third m.console rest (rw e closed.there)
          (rw e closed.refused) typed in
      rw out (_, refl, record { files = stays.files ∙ e; left = stays.left; boot_runlevel = level })

  boot_shell-Fails :
      (fuel : ℕ) (s : S) (m : Machine S)
      → IsClosed host first second third (tested host s)
      → Holds s (stream tries) m
      → Fails (IsOut (tested host s) rest) (boot_shell host net fuel m)
  unfolding boot_shell boot_crl start_network start_disk test run_system Disk.ftest
  boot_shell-Fails fuel s m closed here =
      Fails-continue (IsOut (tested host s) rest) _ _ (
        lsh_start-Fails fuel (tested host s) _ closed (ap (tested host) here.files) here.typed refl)

  boot-Fails :
      (fuel : ℕ) (m : Machine S)
      → (host.geteuid == 0) ≡ false
      → IsThere host m.files
      → IsClosed host first second third (booted host m.files)
      → m.input ≡ stream tries
      → Fails (IsOut (booted host m.files) rest) (boot host net (suc fuel) m)
  unfolding boot boot_crl check_sudo
  boot-Fails fuel m other there closed typed = rw other (
      Returns-Fails (λ a. Holds (mounted host m.files) (stream tries))
        (IsOut (booted host m.files) rest) _ _
        (IsThere-Mounts host fuel tries m.files there _ refl typed)
        (λ a n here. boot_shell-Fails (suc fuel) (mounted host m.files) n closed here))

  -- Where main does not run under user ID 0, the root file system is there with its modules and can
  -- be entered, and so is the password file: who types three user names, words, each with a password
  -- that the file does not accept for it, never gets to the shell. main ends with status 1, at the
  -- runlevel 3 of a kernel that waits for the shell; the files are as the change of directory and the
  -- test of the network have left them, and what is typed behind the third login has not been read.
  pub main-IsOut :
      (fuel : ℕ) (m : Machine S)
      → (host.geteuid == 0) ≡ false
      → IsThere host m.files
      → IsClosed host first second third (booted host m.files)
      → m.input ≡ stream (logins (first ∷ second ∷ third ∷ []) rest)
      → (n : Machine S) × (main host net (suc fuel) m ≡ exits 1 n)
        × IsOut (booted host m.files) rest n
  unfolding main start
  main-IsOut fuel m other there closed typed =
      let (n, e, h) =
        boot-Fails fuel (put_out (codes "Loading the kernel...\n") m) other there closed typed in
      (n, ap (λ r. terminate host (continue r (λ b. shutdown host))) e, h)
