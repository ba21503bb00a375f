-- ===== src/Kernel/Granting.antt =====
-- A session in which root makes accounts, from main to the files that the next login reads.
use lunix.Base.{
  ℕ, suc, ◌==◌, ◌≡◌, ◌<◌, ◌++◌, ◌∷◌, refl, false, List, some, All, All-imp, length, subst, sym,
}
use lunix.Base.Text.{Text, codes}
use lunix.Stream.{stream, newline}
use lunix.Stream.Lines.{Lacks}
use lunix.Stream.Words.{IsWord-Lacks}
use lunix.Os.{FileLaws}
use lunix.Security.{dot, passwd_name}
use lunix.Security.Accepted.{user_named}
use lunix.Security.Digests.{Sha256Laws}
use lunix.Security.Accounts.{
  Account, Accounts, Represents, IsPlain, grants, set_passwords, set_passwords-Represents,
}
use lunix.Machine.{Host, Machine, exits}
use lunix.Disk.There.{IsThere}
use lunix.Lsh.Script.{IsGiven, IsQuit, commands, lsh_loop-commands}
use lunix.Lsh.Shell.{Net}
use lunix.Kernel.Clean.{CanLogIn, booted, logged, main-login}
use lunix.Kernel.Start.{main}

-- An account that passwd can be given and that can log in.
abbrev pub IsAccount : Account → Type 0
IsAccount (user, password) = IsGiven (user, password) × Lacks dot user

module _ {S : Type 0} (host : Host S) (laws : FileLaws host.os) (sha : Sha256Laws host.sha256)
    (opens : (s : S) → (t : S) × (host.open_append s passwd_name ≡ some t)) where
  -- A whole session of root, where the password file can always be opened, main does not run under
  -- user ID 0, and the root file system is there with its modules and can be entered. It starts from
  -- files that let in exactly whom a store of accounts does, root with a password among them. Root
  -- logs in, types a passwd command for each of some accounts, their names without a dot, and then
  -- "exit" or "shutdown". With fuel for one round a line, main ends with status 0 at runlevel 0,
  -- has read no further, and leaves files that let in exactly whom the store does when it is granted
  -- these accounts.
  pub main-Represents :
      (net : Net S) (fuel : ℕ) (password line more : Text) (calls : List Account)
      (x : Accounts host.sha256) (m : Machine S)
      → (host.geteuid == 0) ≡ false
      → IsThere host m.files
      → CanLogIn host (codes "root") password (booted host m.files)
      → Represents host.os laws host.sha256 sha (booted host m.files) x
      → All IsAccount calls
      → IsQuit line
      → length calls < suc fuel
      → m.input ≡ stream (logged (codes "root") password (commands calls (line ++ newline ∷ more)))
      → (n : Machine S) × (main host net (suc fuel) m ≡ exits 0 n)
        × (n.boot_runlevel ≡ 0)
        × (n.input ≡ stream more)
        × Represents host.os laws host.sha256 sha n.files
            (grants host.os laws host.sha256 sha x calls)
  main-Represents net fuel password line more calls x m other there can r given quit enough typed =
      let (n, e, down, h) =
        main-login host net (codes "root") password fuel (commands calls (line ++ newline ∷ more))
          more (set_passwords host.os laws host.sha256 sha (booted host m.files) calls) m other
          there can
          (λ root n h.
            lsh_loop-commands host net line more quit laws sha calls (suc fuel) root
              (user_named (codes "root")) (booted host m.files) n refl
              (All-imp IsAccount IsGiven calls (λ a h. h.0) given) enough h)
          typed in
      (
        n,
        e,
        down,
        h.typed,
        subst
            (λ s.
              Represents host.os laws host.sha256 sha s
                (grants host.os laws host.sha256 sha x calls))
            (sym h.files)
            (set_passwords-Represents host.os laws host.sha256 sha opens (booted host m.files) x
              calls
              (All-imp IsAccount (IsPlain host.os laws host.sha256 sha) calls
                (λ a h. (h.1, IsWord-Lacks a.0 h.0.0)) given)
              r),
      )
