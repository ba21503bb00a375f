-- ===== src/Lsh/Script.antt =====
-- lsh::lshStart on lines that are known: passwd for some accounts, and then the line that ends it.
use lunix.Base.{
  ap, ℕ, zero, suc, ◌<◌, ◌≡◌, ◌≢◌, ◌⊎◌, inl, inr, refl, sym, ◌∙◌, true, List, [], ◌∷◌, ◌++◌, arith,
  All, All-append, length,
}
use lunix.Base.Text.{Text, codes}
use lunix.Stream.{stream, newline, getline}
use lunix.Stream.Lines.{Lacks, getline-line}
use lunix.Stream.Words.{IsWord, IsWord-Lacks}
use lunix.Security.{Console, UserManager, is_root, set_password, change_user_password}
use lunix.Os.{FileLaws}
use lunix.Security.Digests.{Sha256Laws}
use lunix.Security.Accounts.{Account, set_passwords}
use lunix.Machine.{put_input, put_out, Host, Machine, M, continue}
use lunix.Machine.Ends.{Returns}
use lunix.Lsh.Command.{Command, classify}
use lunix.Lsh.Branches.{prompt}
use lunix.Lsh.Shell.{Net, lsh_loop, take_command, execute}
use lunix.Lsh.Arguments.{classify-argument}
use lunix.Lsh.Passwd.{changed, files-changed, execute-passwd}

-- The lines that end the shell.
abbrev pub IsQuit : Text → Type 0
IsQuit line = (line ≡ codes "shutdown") ⊎ (line ≡ codes "exit")

IsQuit-Lacks : (line : Text) → IsQuit line → Lacks newline line
IsQuit-Lacks line (inl e) = rw e (omega arith)
IsQuit-Lacks line (inr e) = rw e (omega arith)

classify-IsQuit : (line : Text) → IsQuit line → classify line ≡ Command.quit
unfolding classify
classify-IsQuit line (inl e) = rw e
classify-IsQuit line (inr e) = rw e

abbrev pub passwd_command : Account → Text
passwd_command (user, password) = codes "passwd " ++ (user ++ 32 ∷ password)

-- The commands for the accounts, one on a line, and what comes behind them.
abbrev pub commands : List Account → Text → Text
commands [] rest = rest
commands (a ∷ calls) rest = passwd_command a ++ newline ∷ commands calls rest

-- What passwd can be given.
abbrev pub IsGiven : Account → Type 0
IsGiven (user, password) = IsWord user × IsWord password

-- Somebody is in the shell, or has been, with these files and this input to come.
pub record InShell {S : Type 0} (somebody : UserManager) (s : S) (rest : Text) (m : Machine S)
    : Type 0 where
  pub files : m.files ≡ s
  pub typed : m.input ≡ stream rest
  pub users : m.users ≡ somebody
  pub runlevel : m.runlevel ≡ 4

passwd_command-Lacks : (a : Account) → IsGiven a → Lacks newline (passwd_command a)
passwd_command-Lacks (user, password) given =
    All-append (λ c. c ≢ newline) (codes "passwd ") _ (omega arith)
      (All-append (λ c. c ≢ newline) user _ (IsWord-Lacks user given.0)
        ((λ e. omega (arith, e)), IsWord-Lacks password given.1))

module _ {S : Type 0} (host : Host S) (net : Net S) where
  change_user_password-keeps :
      (user password : Text) (c : Console S)
      → ((change_user_password host.os host.sha256 user password c).input ≡ c.input)
        × ((change_user_password host.os host.sha256 user password c).users ≡ c.users)
  unfolding change_user_password
  change_user_password-keeps user password c = ground arith

  changed-InShell :
      (user password rest : Text) (somebody : UserManager) (s : S) (m : Machine S)
      → InShell somebody s rest m
      → InShell somebody
          (set_password host.os host.sha256 s user password)
          rest
          (changed host user password m)
  changed-InShell user password rest somebody s m h =
      let kept = change_user_password-keeps user password m.console in
      record {
        files =
            files-changed host user password m
            ∙ ap (λ t. set_password host.os host.sha256 t user password) h.files;
        typed = kept.0 ∙ h.typed;
        users = kept.1 ∙ h.users;
        runlevel = h.runlevel;
      }

  -- A round takes the next line.
  pub lsh_loop-line :
      (fuel : ℕ) (root line rest : Text) (m : Machine S)
      → Lacks newline line
      → m.input ≡ stream (line ++ newline ∷ rest)
      → lsh_loop host net (suc fuel) root m
        ≡ take_command host net fuel
            (lsh_loop host net fuel root)
            (line, stream rest)
            (put_out (prompt host root m) m)
  unfolding lsh_loop
  lsh_loop-line fuel root line rest m clean typed =
      ap
        (λ r.
          take_command host net fuel (lsh_loop host net fuel root) r
            (put_out (prompt host root m) m))
        (ap (getline newline []) typed ∙ getline-line [] line rest clean)

  take_command-passwd :
      (fuel : ℕ) (next : M S (Unit {0})) (user password rest : Text) (m : Machine S)
      → is_root m.users ≡ true
      → IsGiven (user, password)
      → take_command host net fuel next (passwd_command (user, password), stream rest) m
        ≡ next (changed host user password (put_input (stream rest) m))
  unfolding take_command
  take_command-passwd fuel next user password rest m root given =
      let chosen = (classify-argument (user ++ 32 ∷ password) 0).7 in
      let asked = put_input (stream rest) m in
      rw chosen (
        ap (λ r. continue r (λ b. next))
          (ap (λ c. execute host net fuel c asked) (sym chosen)
            ∙ execute-passwd host net fuel user password asked root given.0 given.1))

  module _ (line more : Text) (quit : IsQuit line) where
    pub lsh_loop-quit :
        (fuel : ℕ) (root : Text) (somebody : UserManager) (s : S) (m : Machine S)
        → InShell somebody s (line ++ newline ∷ more) m
        → Returns (λ a. InShell somebody s more) (lsh_loop host net (suc fuel) root m)
    unfolding take_command
    lsh_loop-quit fuel root somebody s m h =
        rw
          (
            lsh_loop-line fuel root line more m (IsQuit-Lacks line quit) h.typed,
            classify-IsQuit line quit,
          )
          (record { files = h.files; typed = refl; users = h.users; runlevel = h.runlevel })

    -- Under root, the accounts are made one after the other.
    pub lsh_loop-commands :
        (laws : FileLaws host.os) (sha : Sha256Laws host.sha256) (calls : List Account) (fuel : ℕ)
        (root : Text) (somebody : UserManager) (s : S) (m : Machine S)
        → is_root somebody ≡ true
        → All IsGiven calls
        → length calls < fuel
        → InShell somebody s (commands calls (line ++ newline ∷ more)) m
        → Returns
            (λ a. InShell somebody (set_passwords host.os laws host.sha256 sha s calls) more)
            (lsh_loop host net fuel root m)
    lsh_loop-commands laws sha calls zero root somebody s m isroot given enough h =
        absurd (omega arith)
    lsh_loop-commands laws sha [] (suc fuel) root somebody s m isroot given enough h =
        lsh_loop-quit fuel root somebody s m h
    lsh_loop-commands laws sha ((user, password) ∷ calls) (suc fuel) root somebody s m isroot given
          enough h =
        let rest = commands calls (line ++ newline ∷ more) in
        let asked = put_out (prompt host root m) m in
        let isroot' : is_root m.users ≡ true = ap is_root h.users ∙ isroot in
        rw
          (
            lsh_loop-line fuel root (passwd_command (user, password)) rest m
                (passwd_command-Lacks (user, password) given.0) h.typed,
            take_command-passwd fuel (lsh_loop host net fuel root) user password rest asked isroot'
                given.0,
          )
          (lsh_loop-commands laws sha calls fuel root somebody
            (set_password host.os host.sha256 s user password)
            (changed host user password (put_input (stream rest) asked)) isroot given.1
            (omega arith)
            (changed-InShell user password rest somebody s (put_input (stream rest) asked)
              (record { files = h.files; typed = refl; users = h.users; runlevel = h.runlevel })))
