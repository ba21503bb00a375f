-- ===== src/Disk.antt =====
-- disk/disk.h and disk/disk.cpp: the class disk. Streams is its std::fstream; Mount, There and Fresh
-- are about rootfs.
mod Paths
pub mod Mount
pub mod Guard
pub mod Programs
pub mod There
pub mod Fresh
pub mod Steady
pub mod Closing
pub mod Streams
pub use Paths.{quoted}
unfoldable pub use Paths.{append_path}
use lunix.Base.{
  ℕ, zero, suc, ltb, ◌==◌, if◌then◌else◌, not, ◌&&◌, ◌||◌, Bool, true, false, List, [], ◌∷◌, ◌++◌,
  Option, none, some,
}
use lunix.Base.Text.{Text, codes, text_eq, join, endl}
use lunix.Base.Int.{ℤ, pos, negsuc}
use lunix.Stream.{newline, getline}
use lunix.Security.{is_root, passwd_name}
use lunix.Machine.{
  Machine, Host, Entry, WaitStatus, exited, killed, Fork, fork_failed, exec_failed, waited, Run, M,
  returns, spent, throws, ◌>>=◌, ◌>>◌, pure, print, print_error, modify, gets, put_files,
}
use lunix.ErrorHandler.{panic, oops}

abbrev pub protected_files : List Text
protected_files = passwd_name ∷ []

-- std::find over the protected files
abbrev pub contains : List Text → Text → Bool
contains [] name = false
contains (f ∷ fs) name = text_eq f name || contains fs name

-- The module files of a listing, each announced.
loaded : List Entry → Text
loaded [] = []
loaded (e ∷ es) =
    (if e.regular_file && text_eq e.extension (codes ".py")
      then join (codes "Loaded " ∷ e.filename ∷ endl ∷ [])
      else [])
    ++ loaded es

abbrev pub is_yes : Text → Bool
is_yes s = text_eq s (codes "y") || text_eq s (codes "Y")

abbrev pub is_no : Text → Bool
is_no s = text_eq s (codes "n") || text_eq s (codes "N")

-- The question that rootfs asks, with the working directory, and its reply to another answer.
abbrev pub ask_rootfs : Text → Text
ask_rootfs cwd = join (
    codes "\nThe rootfs directory doesn't exist. Make new rootfs at "
    ∷ quoted cwd
    ∷ codes "? (y/n): "
    ∷ [])

abbrev pub invalid_input : Text
invalid_input = codes "Invalid input. Please enter 'y' or 'n'.\n"

module _ {S : Type 0} (host : Host S) where
  -- std::getline(std::cin, usr_input) into a new string
  read_line : M S Text
  read_line m =
      let (s, input') = getline newline [] m.input in
      returns s (record m { console = record m.console { input = input' } })

  -- fs::create_directory: whether it made one
  unfoldable pub create_directory : Text → M S Bool
  create_directory path m = elim (host.create_directory m.files path) [
    | none ↦ throws m
    | some (made, s) ↦ returns made (put_files s m)
  ]

  unfoldable pub chdir : Text → M S Bool
  chdir path m = let (done, s) = host.chdir m.files path in returns done (put_files s m)

  pub list_modules : Text → M S (Unit {0})
  unfolding loaded
  list_modules path m = elim (host.directory_iterator m.files path) [
    | none ↦ throws m
    | some entries ↦ print (loaded entries) m
  ]

  -- The end of rootfs, from the change of directory on.
  unfoldable pub mount : Text → Text → M S (Unit {0})
  mount rootfs_path mod_path = do
    print (codes "Changing to rootfs directory...\n")
    done ← chdir rootfs_path
    if done
        then (do
          cwd ← gets (λ m. host.current_path m.files)
          print (join (codes "Current working directory: " ∷ quoted cwd ∷ endl ∷ [])))
        else (do
          what ← gets (λ m. host.what m.files rootfs_path)
          panic host (codes "Failed to change to rootfs directory: " ++ what))
    found ← gets (λ m. host.exists m.files mod_path)
    if found
        then (do
          print (codes "Modules directory found; loading modules...\n")
          list_modules mod_path)
        else (do
          print (codes "Creating modules directory...")
          made ← create_directory mod_path
          if made
              then print (codes "done\n")
              else oops host (
                  codes
                    "Failed to create modules directory. To install modules you may have to create the folder manually."))

  pub make_rootfs : Text → M S (Unit {0})
  make_rootfs path = do
    print (codes "Creating rootfs...")
    made ← create_directory path
    if made then print (codes "done\n") else panic host (codes "Failed to create rootfs")

  -- The fuel bounds the retries after an invalid answer.
  unfoldable pub rootfs : ℕ → M S (Unit {0})
  unfolding read_line append_path
  rootfs zero m = spent
  rootfs (suc fuel) m =
      let again = rootfs fuel in
      let path = host.absolute m.files (codes "rootfs") in
      let mod_path = append_path path (codes "modules") in
      let m' : Machine S = record m { rootfs_absolute_path = path } in
      if not (host.exists m.files path)
      then (do
        cwd ← gets (λ n. host.current_path n.files)
        print (ask_rootfs cwd)
        answer ← read_line
        if is_yes answer
            then (do make_rootfs path; mount path mod_path)
            else if is_no answer
            then (do panic host (codes "Failed to mount rootfs"); mount path mod_path)
            else (do print invalid_input; again))
          m'
      else (do print (codes "done\n"); mount path mod_path) m'

  -- fork, execvp in the child, and waitpid in the parent. A child whose execvp returns reports it
  -- and exits with EXIT_FAILURE; what exit does in it to the state is part of what spawn gives.
  abbrev child_status : Text → Fork → M S (Option WaitStatus)
  child_status report fork_failed = pure none
  child_status report exec_failed = do print_error report; pure (some (exited 1))
  child_status report (waited status) = pure (some status)

  abbrev spawn : Text → List Text → M S (Option WaitStatus)
  spawn report args m =
      let (fork, s) = host.spawn m.files args in child_status report fork (put_files s m)

  wait_module : Option WaitStatus → M S ℤ
  wait_module none = do print_error (codes "Error: Fork failed" ++ endl); pure (negsuc 0)
  wait_module (some (exited n)) = pure (pos n)
  wait_module (some killed) = do
    print_error (codes "Error: Child process did not terminate normally" ++ endl)
    pure (negsuc 0)

  unfoldable pub load_mod : Text → M S ℤ
  unfolding append_path wait_module
  load_mod mod_name m =
      let path =
        append_path (append_path m.rootfs_absolute_path (codes "modules"))
          (mod_name ++ codes ".py") in
      if not (host.exists m.files path) || not (host.is_regular_file m.files path)
      then (do
        print_error (
            join (
              codes "Error: Module "
              ∷ mod_name
              ∷ codes " does not exist in "
              ∷ quoted path
              ∷ endl
              ∷ []))
        pure (negsuc 0))
          m
      else (do
        status ←
            spawn (join (codes "Error: Exec failed for module " ∷ mod_name ∷ endl ∷ []))
              (codes "python3" ∷ path ∷ [])
        wait_module status)
          m

  wait_binary : Option WaitStatus → M S ℤ
  wait_binary none = do print_error (codes "Fork failed" ++ endl); pure (negsuc 0)
  wait_binary (some (exited n)) = pure (pos n)
  wait_binary (some killed) = pure (negsuc 0)

  unfoldable pub fopenbin : Text → M S ℤ
  unfolding wait_binary
  fopenbin binary = do
    status ← spawn (codes "Exec failed" ++ endl) (binary ∷ [])
    wait_binary status

  -- remove(filename.c_str())
  remove_file : Text → M S ℤ
  remove_file name m =
      let (done, s) = host.remove m.files name in
      returns (if done then pos 0 else pos 1) (put_files s m)

  unfoldable pub funlink : Text → M S ℤ
  unfolding remove_file
  funlink name m =
      if contains protected_files name && not (is_root m.users)
      then (do
        print_error
            (join (codes "Permission denied: " ∷ name ∷ codes " is a protected file." ∷ endl ∷ []))
        pure (negsuc 0))
          m
      else remove_file name m

  unfoldable pub fmkdir : Text → M S ℤ
  unfolding create_directory
  fmkdir path = do made ← create_directory path; pure (if made then pos 0 else pos 1)

  remove_all : Text → M S ℕ
  remove_all path m = elim (host.remove_all m.files path) [
    | none ↦ throws m
    | some (count, s) ↦ returns count (put_files s m)
  ]

  unfoldable pub frmdir : Text → M S ℤ
  unfolding remove_all
  frmdir path = do count ← remove_all path; pure (if ltb 0 count then pos 0 else pos 1)

  unfoldable pub frmdir_r : Text → M S ℤ
  unfolding remove_all
  frmdir_r path = do count ← remove_all path; pure (if ltb 0 count then pos 0 else pos 1)

  unfoldable pub fchdir : Text → M S ℤ
  unfolding chdir
  fchdir path = do done ← chdir path; pure (if done then pos 0 else pos 1)

  unfoldable pub ftest : M S ℤ
  ftest = do print (codes "done" ++ endl); pure (pos 0)

  unfoldable pub umount : M S (Unit {0})
  umount = print (codes "Unmounting..." ++ endl)

  unfoldable pub fcwd : M S Text
  fcwd = gets (λ m. host.current_path m.files)
