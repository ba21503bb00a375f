-- ===== src/Security.antt =====
-- security/userman.h and security/userman.cpp: the class UserManager.
-- The pause between two attempts is left out. Accepted and Refused are about logins that the files
-- accept and refuse.
pub mod Entries
pub mod Digests
pub mod Passwords
pub mod Accounts
pub mod Accepted
pub mod Refused
pub mod Login
pub mod Closing
use lunix.Base.{
  ℕ, zero, suc, ◌+◌, not, ◌&&◌, if◌then◌else◌, Bool, true, false, List, [], ◌∷◌, ◌++◌, Option, none,
  some, length,
}
use lunix.Base.Decimal.{decimal}
use lunix.Base.Text.{join, endl, Text, codes, text_eq}
use lunix.Stream.{Stream, stream, newline, getline, read_word, ignore}
use lunix.Hex.{hex_dump}
use lunix.Os.{Os}

pub record UserManager : Type 0 where
  pub current_username : Text
  pub is_root_user : Bool

-- The constructor of the class.
abbrev pub no_user : UserManager
no_user = record { current_username = []; is_root_user = false }

abbrev pub get_username : UserManager → Text
get_username m = m.current_username

abbrev pub is_root : UserManager → Bool
is_root m = m.is_root_user

abbrev pub passwd_name : Text
passwd_name = codes ".passwd"

abbrev pub dot : ℕ
dot = b'.'

-- The two fields of a line. They are the loop's variables: a line with no dot leaves the second.
unfoldable pub read_entry : Text → Text → Text → Text × Text
read_entry line user hash =
    let (user', iss) = getline dot user (stream line) in
    let (hash', iss') = getline newline hash iss in (user', hash')

-- The loop over the password file, with fuel.
unfoldable pub find_entry : ℕ → Stream → Text → Text → Text → Text → Bool
find_entry zero file user hash username password_hash = false
find_entry (suc fuel) file user hash username password_hash =
    let (line, file') = getline newline [] file in
    let (user', hash') = read_entry line user hash in
    let next = find_entry fuel file' user' hash' username password_hash in
    if not file'.fail
    then (if text_eq user' username && text_eq hash' password_hash then true else next)
    else false

-- The stream of a file opened by std::ifstream. One round more than the bytes is enough.
abbrev search_file : Option Text → Text → Text → Bool
search_file none username password_hash = false
search_file (some content) username password_hash =
    find_entry (length content + 1) (stream content) [] [] username password_hash

-- The parameter `sha256` is OpenSSL's SHA256.
module _ (sha256 : Text → List ℕ) where
  unfoldable pub hash_password : Text → Text
  hash_password password = hex_dump (sha256 password)

  -- username << "." << hashPassword(password) << "\n"
  abbrev pub passwd_line : Text → Text → Text
  passwd_line username password = (username ++ dot ∷ hash_password password) ++ newline ∷ []

unfoldable pub password_file_exists : {S : Type 0} → Os S → S → Bool
password_file_exists os s = os.exists s passwd_name

module _ {S : Type 0} (os : Os S) (sha256 : Text → List ℕ) where
  unfoldable pub authenticate : S → Text → Text → Bool
  authenticate s username password =
      search_file (os.read s passwd_name) username (hash_password sha256 password)

  unfoldable pub set_password : S → Text → Text → S
  set_password s username password = elim (os.open_append s passwd_name) [
    | none ↦ s
    | some t ↦ os.write t passwd_name (passwd_line sha256 username password)
  ]

-- What the methods that ask the user read and change: beside the files and the user, the bytes still
-- to be typed, what the terminal has shown, whether std::cout has failed and shows nothing more, and
-- whether the terminal shows what is typed.
pub record Console (S : Type 0) : Type 0 where
  pub files : S
  pub input : Stream
  pub users : UserManager
  pub out : Text
  pub cout_failed : Bool
  pub echo : Bool

module _ {S : Type 0} where
  -- std::cout << s
  abbrev pub show : Text → Console S → Console S
  show s c = record c { out = if c.cout_failed then c.out else c.out ++ s }

  -- std::cerr << s
  abbrev pub show_error : Text → Console S → Console S
  show_error s c = record c { out = c.out ++ s }

  abbrev pub disable_echo : Console S → Console S
  disable_echo c = record c { echo = false }

  abbrev pub enable_echo : Console S → Console S
  enable_echo c = record c { echo = true }

  unfoldable pub get_password : Console S → Text × Console S
  get_password c =
      let hidden = disable_echo c in
      let (password, input') = getline newline [] hidden.input in
      (password, show endl (enable_echo (record hidden { input = input' })))

  -- The line about the attempts that are left, if any are.
  abbrev pub warn : ℕ → Console S → Console S
  warn zero c = c
  warn (suc left) c =
      show_error
        (join (codes "Login failed. Attempts remaining: " ∷ decimal (suc left) ∷ endl ∷ [])) c

module _ {S : Type 0} (os : Os S) (sha256 : Text → List ℕ) where
  -- setPassword with its message.
  abbrev report_unopened : Option S → Console S → Console S
  report_unopened none c = show_error (codes "Unable to open password file.\n") c
  report_unopened (some t) c = c

  unfoldable pub change_user_password : Text → Text → Console S → Console S
  change_user_password username password c =
      record (report_unopened (os.open_append c.files passwd_name) c) {
        files = set_password os sha256 c.files username password;
      }

  -- From the open of the new password file on.
  abbrev ask_root_password : Option S → Console S → Console S
  ask_root_password none c = show_error (codes "Unable to create password file.\n") c
  ask_root_password (some t) c =
      let (root_password, c') =
        get_password (show (codes "No password file found. Create a password for root: ") c) in
      record c' { files = os.write t passwd_name (passwd_line sha256 (codes "root") root_password) }

  unfoldable pub create_password_file : Console S → Console S
  create_password_file c = ask_root_password (os.open_truncate c.files passwd_name) c

  unfoldable pub login : Console S → Bool × Console S
  login c =
      let asked = show (codes "Username: ") c in
      let (username, input') = read_word [] asked.input in
      let named = show (codes "Password: ") (record asked { input = input' }) in
      let (password, c') = get_password (record named { input = ignore named.input }) in
      if authenticate os sha256 c.files username password
      then (
        true,
        record c' {
          users = record {
            current_username = username;
            is_root_user = text_eq username (codes "root");
          };
        },
      )
      else (false, show_error (codes "Invalid username or password.\n") c')

  -- The attempts that are left of the three: whether one succeeded, and the console after them.
  unfoldable pub login_attempts : ℕ → Console S → Bool × Console S
  login_attempts zero c =
      (false, show_error (codes "Maximum login attempts exceeded. Shutting down...\n") c)
  login_attempts (suc left) c =
      let (done, c') = login c in
      let retry = login_attempts left (warn left c') in if done then (true, c') else retry

  abbrev pub max_attempts : ℕ
  max_attempts = 3

  -- With `false` the process ends by exit(1).
  unfoldable pub initialize : Console S → Bool × Console S
  unfolding login_attempts
  initialize c =
      login_attempts max_attempts
        (if password_file_exists os c.files then c else create_password_file c)
