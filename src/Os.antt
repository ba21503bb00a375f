-- ===== src/Os.antt =====
-- What the sources ask of the operating system's files, by std::fstream, std::filesystem, remove
-- and chdir: an interface over its state `S`. Names are resolved by the system, relative ones
-- against the working directory that `S` holds. `none` is a stream that does not open, or the
-- exception fs::filesystem_error.
use lunix.Base.{ℕ, ◌≡◌, Bool, Option, none, some, [], ◌++◌}
use lunix.Base.Text.{Text}

pub record Os (S : Type 0) : Type 0 where
  pub exists : S → Text → Bool
  pub is_directory : S → Text → Bool
  pub is_regular_file : S → Text → Bool
  -- with no exception: the working directory is there
  pub current_path : S → Text
  pub read : S → Text → Option Text
  pub open_append : S → Text → Option S
  pub open_truncate : S → Text → Option S
  pub write : S → Text → Text → S
  pub remove : S → Text → Bool × S
  pub remove_all : S → Text → Option (ℕ × S)
  pub create_directory : S → Text → Option (Bool × S)
  pub chdir : S → Text → Bool × S

-- The bytes of a file, none if it is not there.
abbrev pub contents : Option Text → Text
contents none = []
contents (some t) = t

-- What is relied on of files that are written and read back: opening for appending keeps the
-- bytes and makes the file if it is missing, opening for writing empties it, a write goes to the
-- end, and a file that could be opened for writing can be read.
pub record FileLaws {S : Type 0} (os : Os S) : Type 0 where
  pub read-open_append :
      (s t : S) (n : Text)
      → os.open_append s n ≡ some t
      → os.read t n ≡ some (contents (os.read s n))
  pub read-open_truncate :
      (s t : S) (n : Text) → os.open_truncate s n ≡ some t → os.read t n ≡ some []
  pub read-write :
      (s : S) (n c t : Text) → os.read s n ≡ some c → os.read (os.write s n t) n ≡ some (c ++ t)
