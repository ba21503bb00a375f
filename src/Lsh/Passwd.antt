-- ===== src/Lsh/Passwd.antt =====
-- The passwd command of lsh::lshStart, from the line that is typed to the next login.
use lunix.Base.{ap, ℕ, ◌≡◌, refl, ◌∙◌, arith, true, [], ◌∷◌, ◌++◌, some, if◌then◌else◌}
use lunix.Base.Text.{text_eq_refl, Text, codes}
use lunix.Stream.Lines.{Lacks, IsTerminated}
use lunix.Stream.Words.{IsWord, IsWord-Lacks, read_word-space, read_word-end}
use lunix.Os.{FileLaws, contents}
use lunix.Security.{
  change_user_password, hash_password, is_root, passwd_name, set_password, authenticate,
}
use lunix.Security.{dot}
use lunix.Security.Digests.{Sha256Laws}
use lunix.Security.Passwords.{authenticate-set_password}
use lunix.Machine.{Machine, Host, returns, throws, print_error}
use lunix.Lsh.Command.{classify}
use lunix.Lsh.Branches.{passwd, two_words, change_password}
use lunix.Lsh.Shell.{Net, execute}
use lunix.Lsh.Arguments.{classify-argument}

-- A user name and a password with one space between them are read back.
pub two_words-words :
    (user new_password : Text)
    → IsWord user
    → IsWord new_password
    → two_words (user ++ 32 ∷ new_password) ≡ (user, new_password)
two_words-words user new_password hu hp =
    rw (read_word-space 32 user new_password refl hu, read_word-end new_password hp)

module _ {S : Type 0} (host : Host S) where
  abbrev pub changed : Text → Text → Machine S → Machine S
  changed user new_password m = record m {
    console = change_user_password host.os host.sha256 user new_password m.console;
  }

  pub files-changed :
      (user new_password : Text) (m : Machine S)
      → (changed user new_password m).files
        ≡ set_password host.os host.sha256 m.files user new_password
  unfolding change_user_password
  files-changed user new_password m = refl

  change_password-words :
      (user new_password : Text) (m : Machine S)
      → IsWord user
      → IsWord new_password
      → change_password host (user, new_password) m ≡ returns tt (changed user new_password m)
  unfolding change_password
  change_password-words [] p m hu hp = absurd hu
  change_password-words (c ∷ u) [] m hu hp = absurd hp
  change_password-words (c ∷ u) (d ∷ p) m hu hp = refl

  passwd-root :
      (s : Text) (m : Machine S)
      → is_root m.users ≡ true
      → passwd host (some s) m ≡ change_password host (two_words s) m
  unfolding passwd
  passwd-root s m root = ground (arith, root)

  module _ (net : Net S) where
    pub execute-passwd :
        (fuel : ℕ) (user new_password : Text) (m : Machine S)
        → is_root m.users ≡ true
        → IsWord user
        → IsWord new_password
        → execute host net fuel (classify (codes "passwd " ++ (user ++ 32 ∷ new_password))) m
          ≡ returns tt (changed user new_password m)
    unfolding execute
    execute-passwd fuel user new_password m root hu hp =
        rw (classify-argument (user ++ 32 ∷ new_password) 0).7 (
          passwd-root (user ++ 32 ∷ new_password) m root
          ∙ rw (two_words-words user new_password hu hp)
              (change_password-words user new_password m hu hp))

    -- Where the password file can be opened and ends with a newline, the line "passwd", a user
    -- name without a dot and a password, typed by root, lets in that user with that password.
    pub passwd-authenticate :
        (laws : FileLaws host.os) (sha : Sha256Laws host.sha256) (fuel : ℕ)
        (user new_password : Text) (t : S) (m : Machine S)
        → is_root m.users ≡ true
        → IsWord user
        → Lacks dot user
        → IsWord new_password
        → host.open_append m.files passwd_name ≡ some t
        → IsTerminated (contents (host.read m.files passwd_name))
        → (n : Machine S) × (execute host net fuel
              (classify (codes "passwd " ++ (user ++ 32 ∷ new_password)))
              m
            ≡ returns tt n)
          × (authenticate host.os host.sha256 n.files user new_password ≡ true)
    passwd-authenticate laws sha fuel user new_password t m root hu hd hp opened ended = (
      changed user new_password m,
      execute-passwd fuel user new_password m root hu hp,
      ap (λ f. authenticate host.os host.sha256 f user new_password)
            (files-changed user new_password m)
          ∙ authenticate-set_password host.os laws host.sha256 sha m.files t user new_password user
              new_password opened ended hd (IsWord-Lacks user hu)
          ∙ rw (text_eq_refl user, text_eq_refl (hash_password host.sha256 new_password))
              (ground arith),
    )

    -- The line "passwd" alone, typed by root, ends in an exception that nobody in the shell
    -- catches. For another user it only shows an error.
    passwd_bare :
        (fuel : ℕ) (m : Machine S)
        → execute host net fuel (classify (codes "passwd")) m ≡ (
            if is_root m.users
            then throws m
            else print_error (codes "Only root can change other users' passwords.\n") m)
    unfolding execute passwd classify
    passwd_bare fuel m = ground arith
