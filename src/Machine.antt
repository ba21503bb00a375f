-- ===== src/Machine.antt =====
-- The process: its globals (`Kernel` of disk.cpp, the kernel of main.cpp, `userManager`,
-- `oops_count`, `restart_after_panic`), its terminal, what it asks of its host, and how a call ends.
pub mod Ends
pub mod Total
pub mod Steady
pub mod Closing
use lunix.Base.{ℕ, Bool, if◌then◌else◌, List, [], ◌∷◌, ◌++◌, Option}
use lunix.Base.Text.{Text}
use lunix.Stream.{Stream}
use lunix.Os.{Os}
use lunix.Security.{Console, show, show_error}

-- The exit status of a child process, or that it did not exit.
pub data WaitStatus : Type 0 where
  exited : ℕ → WaitStatus
  killed : WaitStatus

-- How fork and execvp go: fork fails, execvp returns in the child, or the child runs the program.
pub data Fork : Type 0 where
  fork_failed : Fork
  exec_failed : Fork
  waited : WaitStatus → Fork

pub record Entry : Type 0 where
  pub filename : Text
  pub extension : Text
  pub directory : Bool
  pub regular_file : Bool

-- The operating system and the libraries, over the state `S` of the files.
pub record Host (S : Type 0) : Type 0 where
  pub os : Os S
  pub open os use *
  -- OpenSSL's SHA256
  pub sha256 : Text → List ℕ
  -- backtrace_symbols: none where it fails
  pub symbols : Option (List Text)
  pub geteuid : ℕ
  -- system: the status, and the files that the command leaves
  pub system : S → Text → ℕ × S
  -- fork, execvp and waitpid for a program and its arguments. The state is the one behind the child,
  -- also behind what exit does in a child whose execvp has failed.
  pub spawn : S → List Text → Fork × S
  -- fs::absolute
  pub absolute : S → Text → Text
  -- what() of the exception of a failed change of directory
  pub what : S → Text → Text
  -- fs::directory_iterator: none where it throws
  pub directory_iterator : S → Text → Option (List Entry)

pub record Machine (S : Type 0) : Type 0 where
  pub console : Console S
  pub open console use *
  pub oops_count : ℕ
  pub restart_after_panic : Bool
  pub rootfs_absolute_path : Text
  -- `runlevel` of the kernel that main starts, and of the global `Kernel` that the shell uses
  pub boot_runlevel : ℕ
  pub runlevel : ℕ

-- A call returns, throws an exception that nobody catches, ends the process with a status, or is
-- still running when the fuel is spent.
pub data Run (S : Type 0) (A : Type 0) : Type 0 where
  returns : A → Machine S → Run S A
  throws : Machine S → Run S A
  exits : ℕ → Machine S → Run S A
  spent : Run S A

abbrev pub M : Type 0 → Type 0 → Type 0
M S A = Machine S → Run S A

module _ {S A B : Type 0} where
  abbrev pub continue : Run S A → (A → M S B) → Run S B
  continue (returns a m) f = f a m
  continue (throws m) f = throws m
  continue (exits n m) f = exits n m
  continue spent f = spent

module _ {S A B : Type 0} where
  infixl 5 ◌>>=◌ ◌>>◌
  abbrev pub ◌>>=◌ : M S A → (A → M S B) → M S B
  ◌>>=◌ c f m = continue (c m) f

  abbrev pub ◌>>◌ : M S A → M S B → M S B
  ◌>>◌ c d m = continue (c m) (λ a. d)

module _ {S A : Type 0} where
  abbrev pub pure : A → M S A
  pure a m = returns a m

  abbrev pub exit : ℕ → M S A
  exit n m = exits n m

  abbrev pub throw : M S A
  throw m = throws m

  abbrev pub gets : (Machine S → A) → M S A
  gets f m = returns (f m) m

module _ {S : Type 0} where
  abbrev pub skip : M S (Unit {0})
  skip m = returns tt m

  abbrev pub modify : (Machine S → Machine S) → M S (Unit {0})
  modify f m = returns tt (f m)

  abbrev pub put_out : Text → Machine S → Machine S
  put_out s m = record m { console = show s m.console }

  -- std::cout << s
  abbrev pub print : Text → M S (Unit {0})
  print s m = returns tt (put_out s m)

  -- std::cerr << s
  abbrev pub print_error : Text → M S (Unit {0})
  print_error s m = returns tt (record m { console = show_error s m.console })

  abbrev pub put_files : S → Machine S → Machine S
  put_files s m = record m { console = record m.console { files = s } }

  abbrev pub put_input : Stream → Machine S → Machine S
  put_input input' m = record m { console = record m.console { input = input' } }
