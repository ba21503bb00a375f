-- ===== src/Kernel/NextBoot.antt =====
-- Two processes, one after the other: what root has done in the first lets a user in at the second.
use lunix.Base.{
  ap, ℕ, suc, ◌==◌, ◌≡◌, ◌<◌, sym, ◌∙◌, true, false, List, ◌∷◌, ◌++◌, some, All, All-append_right,
  length,
}
use lunix.Base.Text.{Text, codes}
use lunix.Stream.{stream, newline}
use lunix.Stream.Words.{IsWord-Lacks}
use lunix.Os.{FileLaws, contents}
use lunix.Security.{passwd_name}
use lunix.Security.Accepted.{user_named}
use lunix.Security.Accounts.{Account, Accounts, Represents, grants, admitted-granted}
use lunix.Security.Digests.{Sha256Laws}
use lunix.Security.Passwords.{same-authenticate}
use lunix.Machine.{Host, Machine, Run, exits}
use lunix.Disk.There.{IsThere}
use lunix.Lsh.Script.{IsQuit, InShell, commands}
use lunix.Lsh.Shell.{Net}
use lunix.Kernel.Clean.{CanLogIn, booted, logged, session, main-session}
use lunix.Kernel.Granting.{IsAccount, main-Represents}
use lunix.Kernel.Start.{main}

-- The machine that the end of a process has left.
abbrev left_by : {S A : Type 0} → Machine S → Run S A → Machine S
left_by m (exits status n) = n
left_by m _ = m

module _ {S : Type 0} (host : Host S) (laws : FileLaws host.os) (sha : Sha256Laws host.sha256)
    (opens : (s : S) → (t : S) × (host.open_append s passwd_name ≡ some t)) where
  -- Files with the same bytes of passwords as files that let in every account of a store.
  Represents-CanLogIn :
      (user password : Text) (before after : List Account) (x : Accounts host.sha256) (s t : S)
      → Represents host.os laws host.sha256 sha s
          (grants host.os laws host.sha256 sha x (before ++ (user, password) ∷ after))
      → IsAccount (user, password)
      → host.exists t passwd_name ≡ true
      → host.read t passwd_name ≡ host.read s passwd_name
      → CanLogIn host user password t
  Represents-CanLogIn user password before after x s t r given there same = record {
    there = there;
    word = given.0.0;
    clean = IsWord-Lacks password given.0.1;
    accepted =
        same-authenticate host.os laws host.sha256 t s user password (ap contents same)
        ∙ r.logins user password
        ∙ admitted-granted host.os laws host.sha256 sha user password before after x;
  }

  -- Two processes of main on one system, neither under user ID 0, each with its root file system
  -- there, with its modules. In the first, root logs in to files that let in exactly whom a store of
  -- accounts does and whose password file can always be opened, types passwd commands for accounts
  -- whose names have no dot, one for some user and password among them, and "exit" or "shutdown".
  -- When the second has mounted its files, they hold the password file that the first has left. Then
  -- who types that user name, that password and "exit" or "shutdown" to the second is logged in as
  -- that user, and it ends with status 0 at runlevel 0. Fuel is for one round a line.
  pub main-next :
      (net : Net S) (fuel : ℕ) (password line more : Text) (before after : List Account)
      (user user_password line' more' : Text) (x : Accounts host.sha256) (m n next : Machine S)
      → (host.geteuid == 0) ≡ false
      → IsThere host m.files
      → CanLogIn host (codes "root") password (booted host m.files)
      → Represents host.os laws host.sha256 sha (booted host m.files) x
      → All IsAccount (before ++ (user, user_password) ∷ after)
      → IsQuit line
      → length (before ++ (user, user_password) ∷ after) < suc fuel
      → m.input
        ≡ stream (
            logged
              (codes "root")
              password
              (commands (before ++ (user, user_password) ∷ after) (line ++ newline ∷ more)))
      → main host net (suc fuel) m ≡ exits 0 n
      → IsThere host next.files
      → host.exists (booted host next.files) passwd_name ≡ true
      → host.read (booted host next.files) passwd_name ≡ host.read n.files passwd_name
      → IsQuit line'
      → next.input ≡ stream (session user user_password line' more')
      → (o : Machine S) × (main host net (suc fuel) next ≡ exits 0 o)
        × (o.boot_runlevel ≡ 0)
        × InShell (user_named user) (booted host next.files) more' o
  main-next net fuel password line more before after user user_password line' more' x m n next other
        there can r given quit enough typed e there' exists' same quit' typed' =
      let (n', e', down, left, r') =
        main-Represents host laws sha opens net fuel password line more
          (before ++ (user, user_password) ∷ after) x m other there can r given quit enough typed in
      let machine : n' ≡ n = ap (left_by n) (sym e' ∙ e) in
      main-session host net user user_password fuel line' more' next other there'
        (Represents-CanLogIn user user_password before after x n'.files (booted host next.files) r'
          (All-append_right IsAccount before ((user, user_password) ∷ after) given).0 exists'
          (same ∙ ap (λ k. host.read k.files passwd_name) (sym machine)))
        quit' typed'
