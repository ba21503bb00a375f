-- ===== src/Lsh/Branches.antt =====
-- lsh::lshStart: the prompt and what the branches run.
use lunix.Base.{
  zero, if◌then◌else◌, ◌||◌, Bool, true, false, [], ◌∷◌, ◌++◌, Option, none, some, length, drop,
}
use lunix.Base.Text.{starts_with, Text, codes, text_eq, join, endl, is_empty}
use lunix.Base.Int.{ℤ, pos}
use lunix.Base.Decimal.{int_text}
use lunix.Color.{reset, bold_red, bold_green, bold_cyan}
use lunix.Stream.{stream, newline, getline, read_word, ignore_line}
use lunix.Security.{is_root, get_username, change_user_password}
use lunix.Machine.{
  Machine, Host, M, returns, throws, ◌>>=◌, ◌>>◌, skip, print, print_error, modify, gets,
}
use lunix.ErrorHandler.{ver, codename, panic}
use lunix.Disk
use lunix.Disk.{quoted}

-- The working directory as the prompt shows it, from the root that the shell started in.
unfoldable pub prompt_path : Text → Text → Text
prompt_path root current =
    if text_eq current root
    then codes "~"
    else if starts_with current root
    then codes "~" ++ drop (length root) current
    else current

-- iss >> user >> newPassword
abbrev pub two_words : Text → Text × Text
two_words rest =
    let (user, iss) = read_word [] (stream rest) in
    let (new_password, iss') = read_word [] iss in (user, new_password)

abbrev pub succeeded : ℤ → Bool
succeeded (pos zero) = true
succeeded _ = false

module _ {S : Type 0} (host : Host S) where
  unfoldable pub prompt : Text → Machine S → Text
  prompt root m = join (
      (if is_root m.users
        then join (bold_red ∷ codes "root" ∷ reset ∷ [])
        else join (bold_green ∷ get_username m.users ∷ reset ∷ []))
      ∷ codes "@"
      ∷ bold_cyan
      ∷ codes "lunix "
      ∷ reset
      ∷ prompt_path root (host.current_path m.files)
      ∷ (if is_root m.users then codes " # " else codes " % ")
      ∷ [])

  -- std::cin >> ipAddr and the rest of its line
  unfoldable pub read_address : M S Text
  read_address m =
      let (address, input') = read_word [] m.input in
      returns address (record m { console = record m.console { input = ignore_line input' } })

  unfoldable pub ask_address : M S Text
  ask_address = do print (codes "IP address of the server: "); read_address

  unfoldable pub change_password : Text × Text → M S (Unit {0})
  change_password (user, new_password) =
      if is_empty user || is_empty new_password
      then print (codes "Usage: passwd <username> <new_password>\n")
      else modify (λ m. record m {
        console = change_user_password host.os host.sha256 user new_password m.console;
      })

  unfoldable pub passwd : Option Text → M S (Unit {0})
  passwd rest m =
      if is_root m.users
      then elim rest [ none ↦ throws m | some s ↦ change_password (two_words s) m ]
      else print_error (codes "Only root can change other users' passwords.\n") m

  -- A failure is reported with the result of a second call.
  unfoldable pub rm : Text → M S (Unit {0})
  rm args = do
    result ← Disk.funlink host args
    if succeeded result then print (join (codes "Deleted " ∷ args ∷ codes ".\n" ∷ [])) else (do
      print (join (codes "Failed to unlink " ∷ args ∷ codes ". Error code " ∷ []))
      again ← Disk.funlink host args
      print (int_text again ++ endl))

  unfoldable pub rm_r : Text → M S (Unit {0})
  rm_r args = do
    result ← Disk.frmdir_r host args
    if succeeded result
        then print (join (codes "Deleted directory " ∷ args ∷ codes " recursively.\n" ∷ []))
        else print (join (codes "Failed to delete directory " ∷ args ∷ codes ".\n" ∷ []))

  unfoldable pub cd : Text → M S (Unit {0})
  cd path = do
    result ← Disk.fchdir host path
    if succeeded result
        then skip
        else print (join (codes "Directory " ∷ path ∷ codes " not found.\n" ∷ []))

  unfoldable pub change_directory : Text → M S (Unit {0})
  change_directory path = do Disk.fchdir host path; skip

  unfoldable pub print_working_directory : M S (Unit {0})
  print_working_directory = do
    current ← gets (λ m. host.current_path m.files)
    print (quoted current ++ endl)

  unfoldable pub show_build_date : Option Text → M S (Unit {0})
  show_build_date none = print_error (codes "Failed to open .builddate file." ++ endl)
  show_build_date (some content) =
      print (join (codes "Built on: " ∷ (getline newline [] (stream content)).0 ∷ endl ∷ []))

  unfoldable pub show_version : M S (Unit {0})
  show_version = do
    print (join (ver ∷ endl ∷ codes "Codename " ∷ codename ∷ endl ∷ []))
    content ← gets (λ m. host.read m.files (codes "../.builddate"))
    show_build_date content

  unfoldable pub run_binary : Text → M S (Unit {0})
  run_binary executable = do
    result ← Disk.fopenbin host executable
    if succeeded result
        then skip
        else print (join (codes "Failed to execute '" ∷ executable ∷ codes "'." ∷ endl ∷ []))

  unfoldable pub run_module : Text → M S (Unit {0})
  run_module name = do
    print (join (codes "Loading module " ∷ name ∷ codes "\n" ∷ []))
    result ← Disk.load_mod host name
    if succeeded result then skip else print (codes "An error occurred loading the module\n")

  unfoldable pub panic_command : M S (Unit {0})
  panic_command = do
    root ← gets (λ m. is_root m.users)
    if root
        then panic host (codes "User initiated panic using 'panic' command")
        else print (codes "Failed to run command: Permission denied\n")
