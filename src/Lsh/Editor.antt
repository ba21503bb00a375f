-- ===== src/Lsh/Editor.antt =====
-- lsh::simpleEditor: what a session of the editor leaves in its file.
use mathlib.Core.List.{append_assoc, append-nil}
use lunix.Base.{
  inr, inl, ℕ, zero, suc, ◌≡◌, ◌<◌, refl, sym, ◌∙◌, ap, Bool, true, false, List, [], ◌∷◌, ◌++◌,
  Option, some, arith, length, All, if◌then◌else◌,
}
use lunix.Base.Text.{Text, codes, text_eq, endl}
use lunix.Stream.{split_at, good, Stream, stream, newline, getline}
use lunix.Stream.Lines.{getline_cases, lines-split_at, after, lines, Lacks, unlines, getline-line}
use lunix.Os.{contents, FileLaws}
use lunix.Machine.{continue, Machine, Host, returns, spent, put_input, put_files}
use lunix.Lsh.Files.{edit_loop, simple_editor, open_file}

abbrev pub quit_line : Text
quit_line = codes ":wq!"

-- A line that the editor takes into the file.
abbrev pub IsEntry : Text → Type 0
IsEntry l = Lacks newline l × (text_eq l quit_line ≡ false)

module _ {S : Type 0} (host : Host S) where
  -- A line that the editor takes, with the machine that is left.
  abbrev pub written : Bool → Text → Text → Machine S → Machine S
  written false filename line m = m
  written true filename line m = put_files (host.write m.files filename (line ++ endl)) m

  pub edit_loop-suc :
      (fuel : ℕ) (opened : Bool) (filename content : Text) (m : Machine S)
      → let (line, input') = getline newline content m.input in
        edit_loop host (suc fuel) opened filename content m ≡ (
          if text_eq line (quit_line)
          then returns tt (put_input input' m)
          else edit_loop host fuel opened filename line
              (written opened filename line (put_input input' m)))
  unfolding edit_loop
  edit_loop-suc fuel false filename content m = refl
  edit_loop-suc fuel true filename content m = refl

  pub written-input :
      (opened : Bool) (filename line : Text) (input' : Stream) (m : Machine S)
      → (written opened filename line (put_input input' m)).input ≡ input'
  written-input false filename line input' m = refl
  written-input true filename line input' m = refl

  -- Any line but the last leads to the next round.
  edit_loop-again :
      (fuel : ℕ) (opened : Bool) (filename content line : Text) (input' : Stream) (m : Machine S)
      → getline newline content m.input ≡ (line, input')
      → text_eq line quit_line ≡ false
      → edit_loop host (suc fuel) opened filename content m
        ≡ edit_loop host fuel opened filename line
            (written opened filename line (put_input input' m))
  edit_loop-again fuel opened filename content line input' m read other =
      rw (edit_loop-suc fuel opened filename content m, read, other)

  -- A stream that has failed gives the editor the same line for ever.
  edit_loop-ended :
      (fuel : ℕ) (opened : Bool) (filename content : Text) (m : Machine S)
      → good m.input ≡ false
      → text_eq content quit_line ≡ false
      → edit_loop host fuel opened filename content m ≡ spent
  edit_loop-ended zero opened filename content m ended other = unfold edit_loop in refl
  edit_loop-ended (suc fuel) opened filename content m ended other =
      let failed = record m.input { fail = true } in
      edit_loop-again fuel opened filename content content failed m (unfold getline in rw ended)
        other
      ∙ edit_loop-ended fuel opened filename content _
          (rw (written-input opened filename content failed m) (ground arith)) other

  -- Where no line of the input is ":wq!", the editor never ends: no fuel is enough.
  pub edit_loop-spent :
      (fuel : ℕ) (opened : Bool) (filename content s : Text) (m : Machine S)
      → m.input ≡ stream s
      → All (λ l. text_eq l quit_line ≡ false) (lines s)
      → edit_loop host fuel opened filename content m ≡ spent
  edit_loop-spent zero opened filename content s m typed h = unfold edit_loop in refl
  edit_loop-spent (suc fuel) opened filename content [] m typed h =
      let ended : Stream = record { rest = []; eof = true; fail = true } in
      edit_loop-again fuel opened filename content [] ended m (rw typed (unfold getline in refl))
        refl
      ∙ edit_loop-ended fuel opened filename [] _ (rw (written-input opened filename [] ended m))
          refl
  edit_loop-spent (suc fuel) opened filename content (c ∷ s) m typed h =
      let l = (split_at newline (c ∷ s)).0 in
      let r = after (split_at newline (c ∷ s)).1 in
      let h' = rw lines-split_at at h in
      elim (getline_cases c s content) [
        | inl e ↦
            edit_loop-again fuel opened filename content l (stream r) m (rw typed e) h'.0
            ∙ edit_loop-spent fuel opened filename l r _
                (written-input opened filename l (stream r) m) h'.1
        | inr (e, end) ↦
            let ended : Stream = record { rest = []; eof = true; fail = false } in
            edit_loop-again fuel opened filename content l ended m (rw typed e) h'.0
            ∙ edit_loop-ended fuel opened filename l _
                (rw (written-input opened filename l ended m)) h'.0
      ]

  module _ (laws : FileLaws host.os) where
    edit_loop-saves :
        (ls : List Text) (fuel : ℕ) (filename content old rest : Text) (m : Machine S)
        → All IsEntry ls
        → length ls < fuel
        → m.input ≡ stream (unlines ls ++ (quit_line ++ newline ∷ rest))
        → host.read m.files filename ≡ some old
        → (n : Machine S) × (edit_loop host fuel true filename content m ≡ returns tt n)
          × (n.input ≡ stream rest)
          × (host.read n.files filename ≡ some (old ++ unlines ls))
    edit_loop-saves ls zero filename content old rest m h enough typed read = absurd (omega arith)
    edit_loop-saves [] (suc fuel) filename content old rest m h enough typed read =
        let e = getline-line content quit_line rest (ground arith) in
        (
          put_input (stream rest) m,
          rw (edit_loop-suc fuel true filename content m, typed, e),
          refl,
          read ∙ ap {B = Option Text} some (sym (append-nil old)),
        )
    edit_loop-saves (l ∷ ls) (suc fuel) filename content old rest m h enough typed read =
        let next =
          written true filename l
            (put_input (stream (unlines ls ++ (quit_line ++ newline ∷ rest))) m) in
        let (n, runs, left, saved) =
          edit_loop-saves ls fuel filename l (old ++ (l ++ endl)) rest next h.1 (omega arith) refl
            (laws.read-write m.files filename old (l ++ endl) read) in
        (
          n,
          edit_loop-again fuel true filename content l
                (stream (unlines ls ++ (quit_line ++ newline ∷ rest))) m
                (rw typed (
                  rw (append_assoc l (newline ∷ unlines ls) (quit_line ++ newline ∷ rest))
                    (getline-line content l _ h.0.0)))
                h.0.1
              ∙ runs,
          left,
          saved
              ∙ ap {B = Option Text} some (
                  rw (append_assoc old (l ++ endl) (unlines ls), append_assoc l endl (unlines ls))),
        )

    open_file-some :
        (filename : Text) (t : S) (m : Machine S)
        → host.open_append m.files filename ≡ some t
        → open_file host filename m ≡ returns true (put_files t m)
    unfolding open_file
    open_file-some filename t m opened = rw (open_file, opened)

    -- A session whose lines, none of them ":wq!", are closed by ":wq!" ends, appends exactly those
    -- lines to the file that it has opened, and leaves the rest of the input for the shell.
    pub simple_editor-saves :
        (ls : List Text) (fuel : ℕ) (filename rest : Text) (t : S) (m : Machine S)
        → All IsEntry ls
        → length ls < fuel
        → m.input ≡ stream (unlines ls ++ (quit_line ++ newline ∷ rest))
        → host.open_append m.files filename ≡ some t
        → (n : Machine S) × (simple_editor host fuel filename m ≡ returns tt n)
          × (n.input ≡ stream rest)
          × (host.read n.files filename
              ≡ some (contents (host.read m.files filename) ++ unlines ls))
    unfolding simple_editor
    simple_editor-saves ls fuel filename rest t m h enough typed opened =
        let (n, runs, left, saved) =
          edit_loop-saves ls fuel filename [] (contents (host.read m.files filename)) rest _ h
            enough typed (laws.read-open_append m.files t filename opened) in
        (
          n,
          ap (λ r. continue r (λ opened. edit_loop host fuel opened filename []))
                (open_file-some filename t _ opened)
              ∙ runs,
          left,
          saved,
        )
