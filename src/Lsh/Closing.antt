-- ===== src/Lsh/Closing.antt =====
-- The branches of lsh::lshStart on an input whose last line is ":wq!". Commands adds the editor and
-- the client, Loop is the loop around them.
pub mod Commands
pub mod Loop
pub mod Network
use lunix.Base.{
  if_intro, refl, ◌-◌, ◌≤◌, [], Bool, arith, Bool-cases, inl, inr, ◌<◌, ◌≡◌, ℕ, zero, suc, Option,
  none, some, true, false,
}
use lunix.Base.Text.{Text, text_eq, text_eq-true, codes, endl}
use lunix.Stream.{Stream, newline, getline, good}
use lunix.Stream.Closing.{Whole-le, left, Whole, Pending, Whole-Within}
use lunix.Stream.Closing.Reads.{
  getline-Whole, Pending-Whole, Line, getline-Pending, getline-Line, Line-Whole, Line-Pending,
  read_word-Within, ignore_line-Whole,
}
use lunix.Stream.Closing.Words.{Loose, Whole-Loose}
use lunix.Security.{change_user_password}
use lunix.Machine.{put_out, Machine, Host, M, put_input, ◌>>=◌, ◌>>◌}
use lunix.Machine.Ends.{Finishes}
use lunix.Machine.Closing.{Settles-imp, IsClosing, Settles, closing_rules, Settles-continue}
use lunix.ErrorHandler.Closing.{run_system-IsClosing, panic-IsClosing}
use lunix.Disk.Closing.{
  funlink-IsClosing, frmdir_r-IsClosing, fchdir-IsClosing, fmkdir-IsClosing, fopenbin-IsClosing,
  load_mod-IsClosing, fcwd-IsClosing,
}
use lunix.Lsh.Command.{Command, classify}
use lunix.Lsh.Files.{cat_file, edit_loop, simple_editor, list_files, open_file}
use lunix.Lsh.Branches.{
  prompt, passwd, change_password, rm, rm_r, cd, show_version, show_build_date, run_binary,
  run_module, panic_command, ask_address, read_address,
}
use lunix.Lsh.Editor.{written, written-input, edit_loop-suc, quit_line}
use lunix.Lsh.Shell.{port, after_command, take_command, lsh_loop, Net, execute}

-- Of at most `k` bytes to come, the last line is ":wq!".
abbrev pub IsWhole : ℕ → Stream → Type 0
IsWhole k is = Whole quit_line k (left is)

-- The same, with a part of a line before.
abbrev pub AfterWord : ℕ → Stream → Type 0
AfterWord k is = Loose quit_line k (left is)

-- There is a line, and the last one is ":wq!".
abbrev pub IsPending : ℕ → Stream → Type 0
IsPending k is = Pending quit_line k (left is)

-- The network's calls end, and take whole lines or words of the input.
pub record ClosingNet {S : Type 0} (net : Net S) : Type 0 where
  pub start : (k : ℕ) → IsClosing (IsWhole k) net.start
  pub stop : (k : ℕ) → IsClosing (IsWhole k) net.stop
  pub ping_server :
      (k : ℕ) (address : Text) (port : ℕ) → IsClosing (IsWhole k) (net.ping_server address port)
  pub connect_to_server :
      (k : ℕ) (address : Text) (port : ℕ) (m : Machine S)
      → IsWhole k m.input
      → Settles (λ n. AfterWord k n.input) (net.connect_to_server address port m)

module _ {S : Type 0} (host : Host S) where
  -- Every command but the two that take more of the input than whole lines, or need more of it.
  abbrev pub is_plain : Command → Bool
  is_plain (Command.editor filename) = false
  is_plain Command.client_connect = false
  is_plain _ = true

  module _ (k : ℕ) where
    cat_file-IsClosing : (filename : Text) → IsClosing (IsWhole k) (cat_file host filename)
    unfolding cat_file
    cat_file-IsClosing filename = record { at = λ m h. ground arith }

    list_files-IsClosing : (path : Text) → IsClosing (IsWhole k) (list_files host path)
    unfolding list_files
    list_files-IsClosing path = record { at = λ m h. ground arith }

    passwd-IsClosing : (rest : Option Text) → IsClosing (IsWhole k) (passwd host rest)
    unfolding passwd change_password change_user_password
    passwd-IsClosing rest = record { at = λ m h. ground arith }

    read_address-IsClosing : IsClosing (IsWhole k) (read_address host)
    unfolding read_address
    read_address-IsClosing = record {
      at = λ m h.
          ignore_line-Whole quit_line k _
            (read_word-Within quit_line k [] m.input (Whole-Within quit_line k _ h));
    }

    panic_command-IsClosing : IsClosing (IsWhole k) (panic_command host)
    panic_command-IsClosing = unfold panic_command in search (closing_rules, panic-IsClosing)

    ruleset branch_rules = (
      closing_rules, run_system-IsClosing, funlink-IsClosing, frmdir_r-IsClosing, fchdir-IsClosing,
      fmkdir-IsClosing, fopenbin-IsClosing, load_mod-IsClosing, fcwd-IsClosing, cat_file-IsClosing,
      list_files-IsClosing, passwd-IsClosing, read_address-IsClosing, panic_command-IsClosing,
    )

    rm-IsClosing : (args : Text) → IsClosing (IsWhole k) (rm host args)
    rm-IsClosing args = unfold rm in search branch_rules depth 9

    rm_r-IsClosing : (args : Text) → IsClosing (IsWhole k) (rm_r host args)
    rm_r-IsClosing args = unfold rm_r in search branch_rules depth 9

    cd-IsClosing : (path : Text) → IsClosing (IsWhole k) (cd host path)
    cd-IsClosing path = unfold cd in search branch_rules depth 9

    show_build_date-IsClosing :
        (content : Option Text) → IsClosing (IsWhole k) (show_build_date host content)
    show_build_date-IsClosing none = unfold show_build_date in search closing_rules
    show_build_date-IsClosing (some content) = unfold show_build_date in search closing_rules

    show_version-IsClosing : IsClosing (IsWhole k) (show_version host)
    show_version-IsClosing =
        unfold show_version in search (closing_rules, show_build_date-IsClosing) depth 9

    run_binary-IsClosing : (executable : Text) → IsClosing (IsWhole k) (run_binary host executable)
    run_binary-IsClosing executable = unfold run_binary in search branch_rules depth 9

    run_module-IsClosing : (name : Text) → IsClosing (IsWhole k) (run_module host name)
    run_module-IsClosing name = unfold run_module in search branch_rules depth 9

    pub ask_address-IsClosing : IsClosing (IsWhole k) (ask_address host)
    ask_address-IsClosing = unfold ask_address in search branch_rules depth 9

    module _ (net : Net S) (closing : ClosingNet net) where
      ruleset execute_rules = (
        branch_rules, rm-IsClosing, rm_r-IsClosing, cd-IsClosing, show_version-IsClosing,
        run_binary-IsClosing, run_module-IsClosing, ask_address-IsClosing,
      )

      pub execute-IsClosing :
          (fuel : ℕ) (command : Command)
          → is_plain command ≡ true
          → IsClosing (IsWhole k) (execute host net fuel command)
      unfolding execute
      execute-IsClosing fuel (Command.editor filename) other = absurd (cc other)
      execute-IsClosing fuel Command.server_start other = closing.start k
      execute-IsClosing fuel Command.server_stop other = closing.stop k
      execute-IsClosing fuel Command.client_ping other =
          search (execute_rules, closing.ping_server k) depth 8
      execute-IsClosing fuel Command.client_connect other = absurd (cc other)
      execute-IsClosing fuel _ other = search execute_rules depth 8
