-- ===== src/Lsh/Shell.antt =====
-- lsh::lshStart: the choice of the branch and the loop.
use lunix.Base.{ℕ, zero, suc, if◌then◌else◌, Bool, [], ◌∷◌, ◌++◌}
use lunix.Base.Text.{Text, codes, join, endl}
use lunix.Base.Int.{ℤ, pos}
use lunix.Base.Decimal.{decimal}
use lunix.Stream.{Stream, newline, getline}
use lunix.Security.{initialize}
use lunix.Machine.{
  put_input, Host, M, returns, exits, spent, ◌>>=◌, ◌>>◌, pure, skip, print, modify, gets,
}
use lunix.ErrorHandler.{run_system}
use lunix.Kernel.Runlevel.{crlrq}
use lunix.Disk
use lunix.Disk.{quoted}
use lunix.Lsh.Command.{Command, classify}
use lunix.Lsh.Manual.{help_text, man_text}
use lunix.Lsh.Files.{cat_file, simple_editor, list_files}
use lunix.Lsh.Branches.{
  prompt, passwd, rm, rm_r, cd, show_version, run_binary, run_module, ask_address, panic_command,
}

-- The server and the client that the shell starts, as calls of their own.
pub record Net (S : Type 0) : Type 0 where
  pub start : M S (Unit {0})
  pub stop : M S (Unit {0})
  pub ping_server : Text → ℕ → M S Bool
  pub connect_to_server : Text → ℕ → M S Bool

abbrev pub port : ℕ
port = 6942

module _ {S : Type 0} (host : Host S) (net : Net S) where
  -- The branch of a line; the fuel is the editor's.
  unfoldable pub execute : ℕ → Command → M S (Unit {0})
  execute fuel Command.quit = skip
  execute fuel Command.blank = skip
  execute fuel Command.help = print help_text
  execute fuel (Command.man command) = print (man_text command)
  execute fuel (Command.cd path) = cd host path
  execute fuel Command.pwd = do path ← Disk.fcwd host; print (path ++ endl)
  execute fuel (Command.ls path) = list_files host path
  execute fuel (Command.mkdir path) = do Disk.fmkdir host path; skip
  execute fuel (Command.cat filename) = cat_file host filename
  execute fuel (Command.editor filename) = simple_editor host fuel filename
  execute fuel (Command.shell command) = do run_system host command; skip
  execute fuel Command.rl = do rl ← gets (λ m. m.runlevel); print (decimal rl ++ endl)
  execute fuel (Command.rm args) = rm host args
  execute fuel (Command.rm_r args) = rm_r host args
  execute fuel Command.clear = do run_system host (codes "clear"); skip
  execute fuel Command.ver = show_version host
  execute fuel (Command.run executable) = run_binary host executable
  execute fuel Command.panic = panic_command host
  execute fuel (Command.passwd rest) = passwd host rest
  execute fuel Command.server_start = net.start
  execute fuel Command.server_stop = net.stop
  execute fuel Command.client_ping = do
    address ← ask_address host
    net.ping_server address port
    skip
  execute fuel Command.client_connect = do
    address ← ask_address host
    net.connect_to_server address port
    skip
  execute fuel Command.mod_usage = print (codes "Usage: mod <module-name>\n")
  execute fuel (Command.mod_name name) = run_module host name
  execute fuel (Command.not_found command) =
      print (join (codes "Command not found: " ∷ command ∷ endl ∷ []))

  -- A line runs its branch and goes on with `more`, or ends the loop.
  abbrev pub after_command : ℕ → Command → M S (Unit {0}) → M S (Unit {0})
  after_command fuel Command.quit more = skip
  after_command fuel command more = execute fuel command >> more

  -- The rest of a round, with what getline has left. A failed getline ends the loop.
  unfoldable pub take_command : ℕ → M S (Unit {0}) → Text × Stream → M S (Unit {0})
  take_command fuel more (command, input') = do
    modify (put_input input')
    if input'.fail then print endl else after_command fuel (classify command) more

  unfoldable pub lsh_loop : ℕ → Text → M S (Unit {0})
  lsh_loop zero root m = spent
  lsh_loop (suc fuel) root m =
      let more = lsh_loop fuel root in
      (print (prompt host root m) >> take_command fuel more (getline newline [] m.input)) m

  unfoldable pub log_in : M S (Unit {0})
  log_in m =
      let (done, c) = initialize host.os host.sha256 m.console in
      if done then returns tt (record m { console = c }) else exits 1 (record m { console = c })

  unfoldable pub lsh_start : ℕ → M S ℤ
  unfolding log_in
  lsh_start fuel = do
    log_in
    crlrq 4
    root ← gets (λ m. host.current_path m.files)
    print (codes "\nWelcome to Lunix, a small simulation OS built on C++" ++ endl)
    print (codes "lsh shell 0.2.0; type 'help' for commands\n\n")
    print (join (codes "Current working directory: " ∷ quoted root ∷ endl ∷ []))
    lsh_loop fuel root
    pure (pos 0)
