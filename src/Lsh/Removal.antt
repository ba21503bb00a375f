-- ===== src/Lsh/Removal.antt =====
-- The rm command of lsh::lshStart: what keeps the protected files, and what does not.
use lunix.Base.{ℕ, ◌≡◌, refl, arith, true, false, [], ◌∷◌, ◌++◌, take}
use lunix.Base.Text.{endl, Text, codes, text_eq, join}
use lunix.Base.Int.{negsuc}
use lunix.Security.{show_error, is_root}
use lunix.Machine.{Machine, Host, returns, put_out}
use lunix.Machine.Ends.{Returns}
use lunix.Disk.{protected_files, contains, funlink}
use lunix.Lsh.Command.{classify}
use lunix.Lsh.Branches.{rm}
use lunix.Lsh.Shell.{Net, execute}

module _ {S : Type 0} (host : Host S) (net : Net S) where
  -- The machine after the refusal of a protected file.
  abbrev refused : Text → Machine S → Machine S
  refused path m = record m {
    console =
        show_error
          (join (codes "Permission denied: " ∷ path ∷ codes " is a protected file." ∷ endl ∷ []))
          m.console;
  }

  funlink-refused :
      (path : Text) (m : Machine S)
      → is_root m.users ≡ false
      → contains protected_files path ≡ true
      → funlink host path m ≡ returns (negsuc 0) (refused path m)
  unfolding funlink
  funlink-refused path m other protected = ground arith

  rm-refused :
      (path : Text) (m : Machine S)
      → is_root m.users ≡ false
      → contains protected_files path ≡ true
      → Returns (λ a n. n.files ≡ m.files) (rm host path m)
  unfolding rm
  rm-refused path m other protected = rw (funlink-refused path m other protected) (
      rw
        (funlink-refused path
          (put_out (join (codes "Failed to unlink " ∷ path ∷ codes ". Error code " ∷ []))
            (refused path m))
          other protected)
        refl)

  -- "rm" of a protected file, typed by another user than root, leaves every file as it was.
  pub rm_protected :
      (fuel : ℕ) (path : Text) (m : Machine S)
      → text_eq (take 3 path) (codes "-R ") ≡ false
      → is_root m.users ≡ false
      → contains protected_files path ≡ true
      → Returns
          (λ a n. n.files ≡ m.files)
          (execute host net fuel (classify (codes "rm " ++ path)) m)
  unfolding execute classify
  rm_protected fuel path m plain other protected = rw plain (rm-refused path m other protected)
