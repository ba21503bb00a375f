-- ===== src/Lsh/Files.antt =====
-- lsh::catFile, simpleEditor and listFiles.
use lunix.Base.{ℕ, zero, suc, if◌then◌else◌, Bool, true, false, List, [], ◌∷◌, ◌++◌, none, some}
use lunix.Base.Text.{Text, codes, text_eq, join, endl}
use lunix.Color.{bold_blue, reset}
use lunix.Stream.{newline, getline}
use lunix.Machine.{
  put_input, Machine, Host, Entry, M, returns, spent, ◌>>=◌, ◌>>◌, skip, print, print_error, modify,
  put_files,
}

module _ {S : Type 0} (host : Host S) where
  -- std::cout << file.rdbuf(): a file with no bytes makes std::cout fail.
  print_file : Text → M S (Unit {0})
  print_file [] = modify (λ m. record m { console = record m.console { cout_failed = true } })
  print_file (c ∷ s) = print (c ∷ s)

  unfoldable pub cat_file : Text → M S (Unit {0})
  unfolding print_file
  cat_file filename m = elim (host.read m.files filename) [
    | none ↦ print_error (join (codes "No such file: " ∷ filename ∷ endl ∷ [])) m
    | some content ↦
        (if host.is_directory m.files filename
          then print_error (join (codes "Error: " ∷ codes "Cannot cat a directory" ∷ endl ∷ [])) m
          else print_file content m)
  ]

  -- A line that the editor writes, if its file is open.
  write_line : Bool → Text → Text → M S (Unit {0})
  write_line false filename content = skip
  write_line true filename content =
      modify (λ m. put_files (host.write m.files filename (content ++ endl)) m)

  -- `while (true)` with fuel; `content` is what the last getline left in it.
  unfoldable pub edit_loop : ℕ → Bool → Text → Text → M S (Unit {0})
  unfolding write_line
  edit_loop zero open_ filename content m = spent
  edit_loop (suc fuel) open_ filename content m =
      let (line, input') = getline newline content m.input in
      let m' : Machine S = put_input input' m in
      let more = edit_loop fuel open_ filename line in
      if text_eq line (codes ":wq!")
      then returns tt m'
      else (write_line open_ filename line >> more) m'

  unfoldable pub open_file : Text → M S Bool
  open_file filename m = elim (host.open_append m.files filename) [
    | none ↦ returns false m
    | some s ↦ returns true (put_files s m)
  ]

  unfoldable pub simple_editor : ℕ → Text → M S (Unit {0})
  simple_editor fuel filename = do
    print (codes "Simple Editor\n")
    print (join (codes "Editing " ∷ filename ∷ codes ". Type ':wq!' to save and exit.\n" ∷ []))
    opened ← open_file filename
    edit_loop fuel opened filename []

  listed : List Entry → Text
  listed [] = []
  listed (e ∷ es) =
      (if e.directory
        then join (bold_blue ∷ e.filename ∷ codes "/" ∷ reset ∷ endl ∷ [])
        else e.filename ++ endl)
      ++ listed es

  unfoldable pub list_files : Text → M S (Unit {0})
  unfolding listed
  list_files path m =
      let dir_path = host.absolute m.files path in
      elim (host.directory_iterator m.files dir_path) [
        | none ↦ print_error (join (codes "Error: " ∷ host.what m.files dir_path ∷ endl ∷ [])) m
        | some entries ↦ print (listed entries) m
      ]
