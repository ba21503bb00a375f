-- ===== src/Security/Accepted.antt =====
-- UserManager::login and initialize for a user whom the files accept.
use lunix.Base.{List, ℕ, ◌≡◌, refl, true, [], ◌∷◌, ◌++◌}
use lunix.Base.Text.{endl, Text, codes, text_eq}
use lunix.Stream.{stream, newline, ignore}
use lunix.Stream.Lines.{Lacks, getline-line}
use lunix.Stream.Words.{IsWord, read_word-space}
use lunix.Os.{Os}
use lunix.Security.{
  UserManager, show, Console, passwd_name, authenticate, get_password, login, initialize,
  password_file_exists,
}

-- What the user manager knows of a user behind a login.
abbrev pub user_named : Text → UserManager
user_named user = record { current_username = user; is_root_user = text_eq user (codes "root") }

module _ {S : Type 0} (os : Os S) (sha256 : Text → List ℕ) where
  -- What a login shows, and the console that it leaves with the rest of the input.
  abbrev pub as_user : Console S → Text → Text → Console S
  as_user c user more =
      record (show endl (show (codes "Password: ") (show (codes "Username: ") c))) {
        input = stream more;
        users = user_named user;
        echo = true;
      }

  pub login_accepted :
      (c : Console S) (user password more : Text)
      → IsWord user
      → Lacks newline password
      → c.input ≡ stream (user ++ newline ∷ (password ++ newline ∷ more))
      → authenticate os sha256 c.files user password ≡ true
      → login os sha256 c ≡ (true, as_user c user more)
  unfolding login ignore get_password
  login_accepted c user password more word clean typed accepted = simp (
    typed,
    read_word-space newline user (password ++ newline ∷ more) refl word,
    getline-line [] password more clean,
    accepted,
  )

  -- Where there is a password file, who gives a user name and a password that it accepts is let in
  -- at the first attempt.
  pub initialize_accepted :
      (c : Console S) (user password more : Text)
      → os.exists c.files passwd_name ≡ true
      → IsWord user
      → Lacks newline password
      → c.input ≡ stream (user ++ newline ∷ (password ++ newline ∷ more))
      → authenticate os sha256 c.files user password ≡ true
      → initialize os sha256 c ≡ (true, as_user c user more)
  unfolding initialize password_file_exists
  initialize_accepted c user password more there word clean typed accepted =
      rw (there, login_accepted c user password more word clean typed accepted)
