-- ===== src/Lsh/Steady.antt =====
-- The branches of lsh::lshStart and the user and the runlevels.
use lunix.Base.{
  inr, inl, Bool-cases, ℕ, zero, suc, refl, Bool, true, false, Option, none, some, arith,
}
use lunix.Base.Text.{text_eq, Text}
use lunix.Security.{change_user_password}
use lunix.Stream.{newline, getline, Stream}
use lunix.Machine.{modify, put_input, Host, Machine}
use lunix.Machine.Ends.{Ends}
use lunix.Machine.Steady.{Ends-weaken, IsSteady, steady_rules, Same}
use lunix.ErrorHandler.Steady.{panic-IsSteady, run_system-IsSteady}
use lunix.Disk.Steady.{
  funlink-IsSteady, frmdir_r-IsSteady, fchdir-IsSteady, fmkdir-IsSteady, fopenbin-IsSteady,
  load_mod-IsSteady, fcwd-IsSteady,
}
use lunix.Lsh.Command.{Command}
use lunix.Lsh.Files.{cat_file, edit_loop, simple_editor, list_files, open_file}
use lunix.Lsh.Branches.{
  passwd, change_password, rm, rm_r, cd, show_version, show_build_date, run_binary, run_module,
  panic_command, ask_address, read_address,
}
use lunix.Lsh.Editor.{written, edit_loop-suc, quit_line}
use lunix.Lsh.Shell.{Net, execute}

-- The network's calls do not touch the user or the runlevels.
pub record SteadyNet {S : Type 0} (net : Net S) : Type 0 where
  pub start : IsSteady net.start
  pub stop : IsSteady net.stop
  pub ping_server : (address : Text) (port : ℕ) → IsSteady (net.ping_server address port)
  pub connect_to_server :
      (address : Text) (port : ℕ) → IsSteady (net.connect_to_server address port)

module _ {S : Type 0} (host : Host S) where
  cat_file-IsSteady : (filename : Text) → IsSteady (cat_file host filename)
  unfolding cat_file
  cat_file-IsSteady filename = record { at = λ m. ground arith }

  list_files-IsSteady : (path : Text) → IsSteady (list_files host path)
  unfolding list_files
  list_files-IsSteady path = record { at = λ m. ground arith }

  written-Same :
      (opened : Bool) (filename line : Text) (input' : Stream) (m : Machine S)
      → Same m (written host opened filename line (put_input input' m))
  written-Same false filename line input' m = record {
    users = refl;
    runlevel = refl;
    boot_runlevel = refl;
  }
  written-Same true filename line input' m = record {
    users = refl;
    runlevel = refl;
    boot_runlevel = refl;
  }

  edit_loop-Same :
      (fuel : ℕ) (opened : Bool) (filename content : Text) (m : Machine S)
      → Ends (Same m) (edit_loop host fuel opened filename content m)
  edit_loop-Same zero opened filename content m = unfold edit_loop in tt
  edit_loop-Same (suc fuel) opened filename content m =
      let line = (getline newline content m.input).0 in
      let input' = (getline newline content m.input).1 in
      let next = written host opened filename line (put_input input' m) in
      rw (edit_loop-suc host fuel opened filename content m)
        (elim (Bool-cases (text_eq line quit_line)) [
          | inl end ↦ rw end (written-Same false filename line input' m)
          | inr on ↦ rw on (
              Ends-weaken _ (written-Same opened filename line input' m)
                (edit_loop-Same fuel opened filename line next))
        ])

  edit_loop-IsSteady :
      (fuel : ℕ) (opened : Bool) (filename content : Text)
      → IsSteady (edit_loop host fuel opened filename content)
  edit_loop-IsSteady fuel opened filename content = record {
    at = edit_loop-Same fuel opened filename content;
  }

  open_file-IsSteady : (filename : Text) → IsSteady (open_file host filename)
  unfolding open_file
  open_file-IsSteady filename = record { at = λ m. ground arith }

  simple_editor-IsSteady :
      (fuel : ℕ) (filename : Text) → IsSteady (simple_editor host fuel filename)
  simple_editor-IsSteady fuel filename =
      unfold simple_editor in search (steady_rules, open_file-IsSteady, edit_loop-IsSteady) depth 8

  pub IsSteady-input : (input' : Stream) → IsSteady {S = S} (modify (put_input input'))
  IsSteady-input input' = record {
    at = λ m. record { users = refl; runlevel = refl; boot_runlevel = refl };
  }

  passwd-IsSteady : (rest : Option Text) → IsSteady (passwd host rest)
  unfolding passwd change_password change_user_password
  passwd-IsSteady rest = record { at = λ m. ground arith }

  read_address-IsSteady : IsSteady (read_address host)
  unfolding read_address
  read_address-IsSteady = record { at = λ m. ground arith }

  panic_command-IsSteady : IsSteady (panic_command host)
  unfolding panic_command
  panic_command-IsSteady = search (steady_rules, panic-IsSteady)

  ruleset branch_rules = (
    steady_rules, run_system-IsSteady, funlink-IsSteady, frmdir_r-IsSteady, fchdir-IsSteady,
    fmkdir-IsSteady, fopenbin-IsSteady, load_mod-IsSteady, fcwd-IsSteady, cat_file-IsSteady,
    list_files-IsSteady, simple_editor-IsSteady, passwd-IsSteady, read_address-IsSteady,
    panic_command-IsSteady,
  )

  rm-IsSteady : (args : Text) → IsSteady (rm host args)
  rm-IsSteady args = unfold rm in search branch_rules depth 9

  rm_r-IsSteady : (args : Text) → IsSteady (rm_r host args)
  rm_r-IsSteady args = unfold rm_r in search branch_rules depth 9

  cd-IsSteady : (path : Text) → IsSteady (cd host path)
  cd-IsSteady path = unfold cd in search branch_rules depth 9

  show_build_date-IsSteady : (content : Option Text) → IsSteady (show_build_date host content)
  show_build_date-IsSteady none = unfold show_build_date in search steady_rules
  show_build_date-IsSteady (some content) = unfold show_build_date in search steady_rules

  show_version-IsSteady : IsSteady (show_version host)
  show_version-IsSteady =
      unfold show_version in search (steady_rules, show_build_date-IsSteady) depth 9

  run_binary-IsSteady : (executable : Text) → IsSteady (run_binary host executable)
  run_binary-IsSteady executable = unfold run_binary in search branch_rules depth 9

  run_module-IsSteady : (name : Text) → IsSteady (run_module host name)
  run_module-IsSteady name = unfold run_module in search branch_rules depth 9

  ask_address-IsSteady : IsSteady (ask_address host)
  ask_address-IsSteady = unfold ask_address in search branch_rules depth 9

  module _ (net : Net S) (steady : SteadyNet net) where
    ruleset execute_rules = (
      branch_rules, rm-IsSteady, rm_r-IsSteady, cd-IsSteady, show_version-IsSteady,
      run_binary-IsSteady, run_module-IsSteady, ask_address-IsSteady,
    )

    pub execute-IsSteady : (fuel : ℕ) (command : Command) → IsSteady (execute host net fuel command)
    unfolding execute
    execute-IsSteady fuel Command.server_start = steady.start
    execute-IsSteady fuel Command.server_stop = steady.stop
    execute-IsSteady fuel Command.client_ping = search (execute_rules, steady.ping_server) depth 8
    execute-IsSteady fuel Command.client_connect =
        search (execute_rules, steady.connect_to_server) depth 8
    execute-IsSteady fuel _ = search execute_rules depth 8
