-- ===== src/Lsh/Closing/Commands.antt =====
-- The editor, and every command of lsh::lshStart, on an input whose last line is ":wq!".
use lunix.Base.{refl, ◌-◌, ◌≤◌, [], Bool, arith, Bool-cases, inl, inr, ◌<◌, ◌≡◌, ℕ, zero, suc, true}
use lunix.Base.Text.{Text, text_eq}
use lunix.Stream.{Stream, newline, getline}
use lunix.Stream.Closing.Reads.{Pending-Whole, getline-Pending, Line-Whole, Line-Pending}
use lunix.Stream.Closing.Words.{Whole-Loose}
use lunix.Machine.{Machine, Host, put_input}
use lunix.Machine.Closing.{Settles-imp, IsClosing, Settles, Settles-continue}
use lunix.Lsh.Command.{Command}
use lunix.Lsh.Files.{edit_loop, simple_editor, open_file}
use lunix.Lsh.Branches.{ask_address}
use lunix.Lsh.Editor.{written, written-input, edit_loop-suc, quit_line}
use lunix.Lsh.Shell.{port, Net, execute}
use lunix.Lsh.Closing.{
  IsWhole, AfterWord, IsPending, ClosingNet, is_plain, execute-IsClosing, ask_address-IsClosing,
}

module _ {S : Type 0} (host : Host S) where
  open_file-IsClosing :
      (Q : Stream → Type 0) (filename : Text) → IsClosing Q (open_file host filename)
  unfolding open_file
  open_file-IsClosing Q filename = record { at = λ m h. ground arith }

  -- A session of the editor ends at the last line at the latest.
  edit_loop-Settles :
      (fuel k j : ℕ) (opened : Bool) (filename content : Text) (m : Machine S)
      → IsPending k m.input
      → k < fuel
      → k ≤ suc j
      → Settles (λ n. IsWhole j n.input) (edit_loop host fuel opened filename content m)
  edit_loop-Settles zero k j opened filename content m h enough le = absurd (omega arith)
  edit_loop-Settles (suc fuel) k j opened filename content m h enough le =
      let line = (getline newline content m.input).0 in
      let input' = (getline newline content m.input).1 in
      let next = written host opened filename line (put_input input' m) in
      let read = getline-Pending quit_line k content m.input h in
      rw (edit_loop-suc host fuel opened filename content m)
        (elim (Bool-cases (text_eq line quit_line)) [
          | inl end ↦ rw end (Line-Whole quit_line j read le)
          | inr on ↦ rw on (
              edit_loop-Settles fuel (k - 1) j opened filename line next
                (rw (written-input host opened filename line input' m)
                  (Line-Pending quit_line (k - 1) read (omega arith) on))
                (omega (arith, read.shorter)) (omega arith))
        ])

  simple_editor-Settles :
      (fuel k : ℕ) (filename : Text) (m : Machine S)
      → IsPending k m.input
      → k < fuel
      → Settles (λ n. IsWhole k n.input) (simple_editor host fuel filename m)
  unfolding simple_editor
  simple_editor-Settles fuel k filename m h enough =
      Settles-continue (λ n. IsPending k n.input) (λ n. IsWhole k n.input) _ _
        ((open_file-IsClosing (IsPending k) filename).at _ h)
        (λ opened n p. edit_loop-Settles fuel k k opened filename [] n p enough (omega arith))

  module _ (net : Net S) (closing : ClosingNet net) where
    connect-Settles :
        (fuel k : ℕ) (m : Machine S)
        → IsWhole k m.input
        → Settles (λ n. AfterWord k n.input) (execute host net fuel Command.client_connect m)
    unfolding execute
    connect-Settles fuel k m h =
        Settles-continue (λ n. IsWhole k n.input) (λ n. AfterWord k n.input) (ask_address host m) _
          ((ask_address-IsClosing host k).at m h)
          (λ address n w.
            Settles-continue (λ o. AfterWord k o.input) (λ o. AfterWord k o.input) _ _
              (closing.connect_to_server k address port n w) (λ b o l. l))

    pub plain-Settles :
        (fuel k : ℕ) (command : Command) (m : Machine S)
        → is_plain host command ≡ true
        → IsWhole k m.input
        → Settles (λ n. AfterWord k n.input) (execute host net fuel command m)
    plain-Settles fuel k command m plain h =
        Settles-imp (λ n. IsWhole k n.input) (λ n. AfterWord k n.input) _
          (λ n. Whole-Loose quit_line)
          ((execute-IsClosing host k net closing fuel command plain).at m h)

    pub execute-Settles :
        (fuel k : ℕ) (command : Command) (m : Machine S)
        → IsPending k m.input
        → k < fuel
        → Settles (λ n. AfterWord k n.input) (execute host net fuel command m)
    execute-Settles fuel k (Command.editor filename) m h enough =
        Settles-imp (λ n. IsWhole k n.input) (λ n. AfterWord k n.input) _
          (λ n. Whole-Loose quit_line)
          (unfold execute in simple_editor-Settles fuel k filename m h enough)
    execute-Settles fuel k Command.client_connect m h enough =
        connect-Settles fuel k m (Pending-Whole quit_line h)
    execute-Settles fuel k command m h enough =
        plain-Settles fuel k command m refl (Pending-Whole quit_line h)
