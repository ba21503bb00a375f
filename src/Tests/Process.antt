-- ===== src/Tests/Process.antt =====
-- Runs of the whole process, over files with the server beside them, and instances of its theorems.
use lunix.Base.{ℕ, Option, ◌≡◌, false, refl, inr, List, [], ◌∷◌, ◌++◌, none, some, true, arith}
use lunix.Base.Text.{Text, codes}
use lunix.Os.{Os, contents}
use lunix.Stream.{stream}
use lunix.Security.{no_user}
use lunix.Machine.{exits, Run, Host, Machine, waited, exited}
use lunix.Server.{Server}
use lunix.Client.{Connector, Thread, typist, receiver}
use lunix.Lsh.Network.{Globals}
use lunix.Disk
use lunix.Stream.{read_word, ignore, getline}
use lunix.Lsh.Network.{terminal_net}
use lunix.Lsh.Command.{classify}
use lunix.Kernel.Runlevel.{boot_crl, crlrq}
use lunix.Kernel.Start.{
  main, start, boot, check_sudo, boot_shell, start_network, start_disk, test, shutdown,
}
use lunix.ErrorHandler.{run_system}
use lunix.Hex.{hex_dump}
use lunix.Lsh.Branches.{prompt, prompt_path}
use lunix.Lsh.Shell.{lsh_start, log_in, lsh_loop, take_command, execute}
use lunix.Security.{
  initialize, password_file_exists, login, get_password, authenticate, find_entry, read_entry,
  hash_password,
}
use lunix.Base.Decimal.{decimal}
use lunix.Disk.There.{IsThere}
use lunix.Kernel.Clean.{session, CanLogIn, main-session}
use lunix.Lsh.Script.{InShell}
use lunix.Security.Accepted.{user_named}
use lunix.Kernel.Process.{process, process-IsDown, IsDown}
use lunix.Tests.Host.{Files, put, files_os, files_host}
use lunix.Tests.Security.{one_user, typed}
use lunix.Tests.Lsh.{idle_server, idle_sockets}

abbrev World : Type 0
World = Files × Server (Unit {0})

abbrev world_os : Os World
world_os = record {
  exists = λ w n. files_os.exists w.0 n;
  is_directory = λ w n. files_os.is_directory w.0 n;
  is_regular_file = λ w n. files_os.is_regular_file w.0 n;
  current_path = λ w. files_os.current_path w.0;
  read = λ w n. files_os.read w.0 n;
  open_append = λ w n. some (put w.0 n (some (contents (w.0 n))), w.1);
  open_truncate = λ w n. some (put w.0 n (some []), w.1);
  write = λ w n t. (files_os.write w.0 n t, w.1);
  remove = λ w n. ((files_os.remove w.0 n).0, ((files_os.remove w.0 n).1, w.1));
  remove_all = λ w n. some (1, (put w.0 n none, w.1));
  create_directory = λ w n. some (true, (put w.0 n (some []), w.1));
  chdir = λ w n. (true, w);
}

abbrev world_host : Host World
world_host = record {
  os = world_os;
  sha256 = files_host.sha256;
  symbols = files_host.symbols;
  geteuid = 1000;
  system = λ w c. (0, w);
  spawn = λ w args. (waited (exited 0), w);
  absolute = λ w n. codes "/" ++ n;
  what = λ w n. codes "what";
  directory_iterator = λ w n. some [];
}

abbrev world_globals : Globals World (Unit {0})
world_globals = record { server = λ w. w.1; put_server = λ t w. (w.0, t) }

abbrev replies : Text
replies = codes "replies"

-- A server that answers "100", then "USER_OK", and then closes the connection.
abbrev short_server : Connector World
short_server = record {
  socket = λ s. some (3, (put s.0 replies none, s.1));
  inet_pton = λ ip. true;
  connect = λ s sock ip port. (true, s);
  send = λ s sock text. s;
  close = λ s sock. s;
  read = λ s sock. elim (s.0 replies) [
    | none ↦ (codes "100", (put s.0 replies (some []), s.1))
    | some [] ↦ (codes "USER_OK", (put s.0 replies (some (codes "1")), s.1))
    | some (c ∷ t) ↦ ([], s)
  ];
}

abbrev turns : List Thread
turns =
    receiver ∷ receiver ∷ receiver ∷ receiver ∷ receiver ∷ receiver ∷ typist ∷ typist ∷ typist ∷ []

abbrev installed : Files
installed = put one_user (codes "/rootfs") (some [])

abbrev chatting : Text
chatting =
    typed
    ++ codes "server start\nclient connect\n127.0.0.1\nme\nCHAT hello\neditor f\nhello\n:wq!\n"

abbrev booting : Machine World
booting = record {
  console = record {
    files = (installed, idle_server);
    input = stream chatting;
    users = no_user;
    out = [];
    cout_failed = false;
    echo = true;
  };
  oops_count = 0;
  restart_after_panic = false;
  rootfs_absolute_path = codes "/rootfs";
  boot_runlevel = 0;
  runlevel = 0;
}

abbrev no_server : Connector World
no_server = record short_server { connect = λ s sock ip port. (false, s) }

process-IsDown_example :
    IsDown world_globals idle_sockets
      (process world_globals idle_sockets world_host short_server turns 199 booting)
process-IsDown_example =
    process-IsDown world_globals idle_sockets (λ w t. refl) world_host short_server turns 199
      booting

abbrev status : Run World (Unit {0}) → Option ℕ
status (exits n m) = some n
status _ = none

abbrev signing_off : Machine World
signing_off = record booting {
  console = record booting.console { input = stream (codes "root\npw\nrl\nexit\n") };
}

-- A session that logs in, asks for the runlevel and leaves.
main_runs :
    status
      (main world_host (terminal_net world_globals idle_sockets short_server turns) 9 signing_off)
    ≡ some 0
unfolding main start boot boot_crl check_sudo terminal_net Disk.chdir Disk.create_directory
    Disk.rootfs Disk.append_path Disk.mount Disk.umount Disk.ftest boot_shell start_network
    start_disk test run_system shutdown lsh_start log_in lsh_loop take_command prompt prompt_path
    classify execute crlrq decimal initialize password_file_exists login get_password read_word
    ignore authenticate find_entry read_entry getline hash_password hex_dump
main_runs = refl

-- The modules are there too.
abbrev at_home : Machine World
at_home = record booting {
  console = record booting.console {
    files = (put installed (codes "/rootfs/modules") (some []), idle_server);
    input = stream (session (codes "root") (codes "pw") (codes "exit") (codes "rest"));
  };
}

at_home-IsThere : IsThere world_host at_home.files
at_home-IsThere = record {
  there = refl;
  entered = refl;
  modules = unfold Disk.append_path in refl;
  entries = [];
  listed = refl;
}

at_home-CanLogIn : CanLogIn world_host (codes "root") (codes "pw") at_home.files
unfolding authenticate find_entry read_entry hash_password hex_dump getline
at_home-CanLogIn = record {
  there = refl;
  word = (refl, (refl, (refl, (refl, tt))));
  clean = omega arith;
  accepted = refl;
}

main-session_example :
    (n : Machine World) × (main world_host
        (terminal_net world_globals idle_sockets short_server turns)
        1
        at_home
      ≡ exits 0 n)
    × (n.boot_runlevel ≡ 0)
    × InShell (user_named (codes "root")) at_home.files (codes "rest") n
main-session_example =
    main-session world_host (terminal_net world_globals idle_sockets short_server turns)
      (codes "root") (codes "pw") 0 (codes "exit") (codes "rest") at_home refl at_home-IsThere
      at_home-CanLogIn (inr refl) refl
