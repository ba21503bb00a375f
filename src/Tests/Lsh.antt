-- ===== src/Tests/Lsh.antt =====
-- Runs of the shell and of the process, and instances of their theorems.
use lunix.Base.{◌||◌, ◌&&◌, none, List, ◌≡◌, refl, ◌++◌, ◌∷◌, [], true, false, some, arith}
use lunix.Base.Text.{Text, codes, text_eq}
use lunix.Stream.{stream}
use lunix.Stream.Lines.{lines}
use lunix.Os.{contents}
use lunix.Security.{authenticate, hash_password, passwd_line}
use lunix.Machine.{Machine, returns, spent, skip, pure}
use lunix.Machine.Ends.{Ends, Returns}
use lunix.Lsh.Command.{classify}
use lunix.Lsh.Forgery.{editor-authenticate}
use lunix.Lsh.Files.{simple_editor, edit_loop}
use lunix.Lsh.Shell.{Net, execute, lsh_start}
use lunix.Stream.Lines.{unlines}
use lunix.Lsh.Editor.{simple_editor-saves, edit_loop-spent, quit_line}
use lunix.Lsh.Removal.{rm_protected}
use lunix.Server.{Server, Sockets}
use lunix.Client.{Connector}
use lunix.Lsh.Network.{Globals, terminal_net, terminal-session}
use lunix.Tests.Host.{
  Files, no_files, files_os, files_laws, length_digest, length_digest_laws, files_host, machine,
}
use lunix.Tests.Security.{one_user, typed, logged_in, second_attempt, one_user-IsTerminated}

-- A network that is never there.
abbrev pub no_net : Net Files
no_net = record {
  start = skip;
  stop = skip;
  ping_server = λ address port. pure false;
  connect_to_server = λ address port. pure false;
}

abbrev guest : Machine Files
guest = machine one_user []

rm_protected_example :
    Returns
      (λ a n. n.files ≡ guest.files)
      (execute files_host no_net 5 (classify (codes "rm " ++ codes ".passwd")) guest)
rm_protected_example = rm_protected files_host no_net 5 (codes ".passwd") guest refl refl refl

-- A host on which no socket can be made, and its server.
abbrev offline : Connector Files
offline = record {
  socket = λ s. none;
  inet_pton = λ ip. false;
  connect = λ s sock ip port. (false, s);
  send = λ s sock text. s;
  read = λ s sock. ([], s);
  close = λ s sock. s;
}

abbrev pub idle_server : Server (Unit {0})
idle_server = record {
  running = false;
  client_sockets = [];
  client_usernames = [];
  network = tt;
  out = [];
}

abbrev idle_globals : Globals Files (Unit {0})
idle_globals = record { server = λ s. idle_server; put_server = λ t s. s }

abbrev pub idle_sockets : Sockets (Unit {0})
idle_sockets = record { send = λ n s t. (false, n); shutdown = λ n s. n; close = λ n s. n }

terminal-session_example :
    Ends
      (λ n. (n.users ≡ logged_in.users) × (n.runlevel ≡ 4) × (n.boot_runlevel ≡ 0))
      (lsh_start files_host
        (terminal_net idle_globals idle_sockets offline [])
        3
        (machine one_user typed))
terminal-session_example =
    terminal-session idle_globals idle_sockets files_host offline [] 3 (machine one_user typed)
      logged_in second_attempt

-- Nobody has logged in, and the editor is given a line for root.
abbrev forging : Machine Files
forging =
    machine one_user
      (passwd_line length_digest (codes "root") (codes "abc") ++ (quit_line ++ 10 ∷ []))

editor-authenticate_example :
    (n : Machine Files) × (execute files_host no_net 2 (classify (codes "editor .passwd")) forging
      ≡ returns tt n)
    × (n.input ≡ stream [])
    × (authenticate files_os length_digest n.files (codes "root") (codes "abc") ≡ (
        authenticate files_os length_digest forging.files (codes "root") (codes "abc")
        || (text_eq (codes "root") (codes "root")
            && text_eq
                (hash_password length_digest (codes "abc"))
                (hash_password length_digest (codes "abc")))))
editor-authenticate_example =
    editor-authenticate files_host no_net files_laws length_digest_laws 2 (codes "root")
      (codes "abc") (codes "root") (codes "abc") [] _ forging (omega arith) (omega arith)
      (omega arith) refl refl one_user-IsTerminated

abbrev behind_nano : Text
behind_nano = codes "nano; rm .passwd"

abbrev after_nano : Machine Files
after_nano = machine one_user (behind_nano ++ codes "\nexit\n")

abbrev two_entries : List Text
two_entries = codes "one" ∷ codes ":wq" ∷ []

abbrev editing : Machine Files
editing = machine no_files (unlines two_entries ++ (quit_line ++ 10 ∷ codes "exit\n"))

simple_editor-saves_example :
    (n : Machine Files) × (simple_editor files_host 3 (codes "f") editing ≡ returns tt n)
    × (n.input ≡ stream (codes "exit\n"))
    × (files_os.read n.files (codes "f")
        ≡ some (contents (files_os.read editing.files (codes "f")) ++ unlines two_entries))
simple_editor-saves_example =
    simple_editor-saves files_host files_laws two_entries 3 (codes "f") (codes "exit\n") _ editing
      ((omega arith, refl), ((omega arith, refl), tt)) (omega arith) refl refl

edit_loop-spent_example :
    edit_loop files_host 100 true (codes "f") [] (machine no_files (codes "exit\n")) ≡ spent
edit_loop-spent_example =
    edit_loop-spent files_host 100 true (codes "f") [] (codes "exit\n")
      (machine no_files (codes "exit\n")) refl (unfold lines in (refl, tt))
