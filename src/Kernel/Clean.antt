-- ===== src/Kernel/Clean.antt =====
-- main when nothing goes wrong: the boot, a login, lines for the shell, and the shutdown.
use lunix.Base.{ℕ, suc, ◌==◌, ◌≡◌, refl, subst, sym, true, false, ◌∷◌, ◌++◌}
use lunix.Base.Text.{Text}
use lunix.Stream.{stream, newline}
use lunix.Stream.Lines.{Lacks}
use lunix.Stream.Words.{IsWord}
use lunix.Security.{authenticate, passwd_name}
use lunix.Security.Accepted.{user_named, initialize_accepted}
use lunix.Machine.{Host, Machine, exits}
use lunix.Machine.Ends.{Arrives}
use lunix.Disk.{rootfs}
use lunix.Disk.There.{IsThere, mounted, rootfs-Arrives}
use lunix.Lsh.Script.{IsQuit, InShell, lsh_loop-quit}
use lunix.Lsh.Shell.{Net}
use lunix.Kernel.Booting.{tested, Mounts, LogsIn, Takes, main-InShell}
use lunix.Kernel.Start.{main}

-- A login, and what is typed behind it.
abbrev pub logged : Text → Text → Text → Text
logged user password rest = user ++ newline ∷ (password ++ newline ∷ rest)

-- The same with one line behind it.
abbrev pub session : Text → Text → Text → Text → Text
session user password line more = logged user password (line ++ newline ∷ more)

module _ {S : Type 0} (host : Host S) where
  -- The files that the shell starts with.
  abbrev pub booted : S → S
  booted s = tested host (mounted host s)

  -- The files let in the user with the password, which can be typed.
  pub record CanLogIn (user password : Text) (s : S) : Type 0 where
    pub there : host.exists s passwd_name ≡ true
    pub word : IsWord user
    pub clean : Lacks newline password
    pub accepted : authenticate host.os host.sha256 s user password ≡ true

  pub IsThere-Mounts :
      (fuel : ℕ) (typed : Text) (s : S)
      → IsThere host s
      → Mounts host (suc fuel) s typed (mounted host s) typed
  IsThere-Mounts fuel typed s there m e input =
      subst (λ f. Arrives (mounted host f) (stream typed) (rootfs host (suc fuel) m)) e
        (subst (λ i. Arrives (mounted host m.files) i (rootfs host (suc fuel) m)) input
          (rootfs-Arrives host fuel m (subst (IsThere host) (sym e) there)))

module _ {S : Type 0} (host : Host S) (net : Net S) (user password : Text) where
  CanLogIn-LogsIn :
      (s : S) (rest : Text)
      → CanLogIn host user password s
      → LogsIn host net user s (logged user password rest) s rest
  CanLogIn-LogsIn s rest can c e typed = (
    _,
    initialize_accepted host.os host.sha256 c user password rest (rw e can.there) can.word can.clean
        typed (rw e can.accepted),
    e,
    refl,
    refl,
  )

  -- What is typed behind the login leads from the files that the shell starts with to others.
  pub main-login :
      (fuel : ℕ) (rest more : Text) (t : S) (m : Machine S)
      → (host.geteuid == 0) ≡ false
      → IsThere host m.files
      → CanLogIn host user password (booted host m.files)
      → Takes host net user (suc fuel) (booted host m.files) rest t more
      → m.input ≡ stream (logged user password rest)
      → (n : Machine S) × (main host net (suc fuel) m ≡ exits 0 n)
        × (n.boot_runlevel ≡ 0)
        × InShell (user_named user) t more n
  main-login fuel rest more t m other there can takes typed =
      main-InShell host net user (suc fuel) (logged user password rest) rest more
        (mounted host m.files) (booted host m.files) t (CanLogIn-LogsIn _ rest can) takes
        (logged user password rest) m other typed (IsThere-Mounts host fuel _ m.files there)

  -- Where main does not run under user ID 0, the root file system is there with its modules and can
  -- be entered, and its password file lets in a user whose name is a word, with a password: who types
  -- that name, that password and then "exit" or "shutdown" is logged in as that user, and main ends
  -- with status 0 at runlevel 0, the global runlevel being 4. The files are then as the change of
  -- directory and the test of the network have left them, and what is typed behind that line has
  -- not been read. One round of fuel is enough.
  pub main-session :
      (fuel : ℕ) (line more : Text) (m : Machine S)
      → (host.geteuid == 0) ≡ false
      → IsThere host m.files
      → CanLogIn host user password (booted host m.files)
      → IsQuit line
      → m.input ≡ stream (session user password line more)
      → (n : Machine S) × (main host net (suc fuel) m ≡ exits 0 n)
        × (n.boot_runlevel ≡ 0)
        × InShell (user_named user) (booted host m.files) more n
  main-session fuel line more m other there can quit typed =
      main-login fuel (line ++ newline ∷ more) more (booted host m.files) m other there can
        (λ root n h. lsh_loop-quit host net line more quit fuel root (user_named user) _ n h) typed
