-- ===== src/Tests/Server.antt =====
-- Runs of the server, and instances of its theorems.
use lunix.Base.{
  Option, subst, All, false, ◌≡◌, refl, ◌++◌, ◌∷◌, [], ℕ, List, true, some, none, arith,
}
use lunix.Base.Text.{Text, codes}
use lunix.Server.{Sockets, Server, Client, next, turn, handle_client, send_all, new_client}
use lunix.Server.Quiet.{SentTo}
use lunix.Server.Silence.{handle_client-silent}
use lunix.Server.Run.{
  Listener, is_private, first_private, get_private_ip, timeout, returned, run, configure, listen_on,
  accept_loop, greeting,
}
use lunix.Server.Run.Address.{IsDotted, is_private-address}
use lunix.Server.Run.Closing.{Closed, run-closes}
use lunix.Base.Decimal.{decimal}
use lunix.Stream.{stream}
use lunix.Security.{no_user}
use lunix.Machine.{Machine, returns, ◌>>◌}
use lunix.Client.{Connector}
use lunix.Lsh.Network.{Globals, IsFresh, terminal_net, stop-start}
use lunix.Server.Speech.{said, joined, user_set_chat}

-- A network that keeps what was sent, and a close as a message of its own.
abbrev pub Log : Type 0
Log = List (ℕ × Text)

abbrev pub log_sockets : Sockets Log
log_sockets = record {
  send = λ n s t. (true, n ++ (s, t) ∷ []);
  shutdown = λ n s. n;
  close = λ n s. n ++ (s, codes "close") ∷ [];
}

-- Two clients are connected.
abbrev two_clients : Server Log
two_clients = record {
  running = true;
  client_sockets = 4 ∷ 5 ∷ [];
  client_usernames = [];
  network = [];
  out = [];
}

user_set_chat_example :
    (c : Client) × (t : Server Log) × (u : Server Log) × (turn log_sockets 5
        (codes "USER_SET " ++ codes "ann")
        new_client
        two_clients
      ≡ next c t)
    × (turn log_sockets 5 (codes "CHAT " ++ codes "hi") c t ≡ next c u)
    × (u.client_sockets ≡ two_clients.client_sockets)
    × (t.network
        ≡ (log_sockets.send
            (said log_sockets (joined log_sockets (codes "ann")) two_clients)
            5
            (codes "USER_OK")).1)
    × (u.network
        ≡ send_all log_sockets
            (codes "ann" ++ (codes ": " ++ codes "hi"))
            two_clients.client_sockets
            t.network)
user_set_chat_example =
    user_set_chat log_sockets 5 (codes "ann") (codes "hi") new_client two_clients (omega arith)
      (omega arith) refl

handle_client-silent_example :
    (t : Server Log) × (handle_client log_sockets 6
        (codes "PING" ∷ codes "CHAT hi" ∷ [])
        two_clients
      ≡ some t)
    × (t.client_sockets ≡ two_clients.client_sockets ++ 6 ∷ [])
    × (t.client_usernames ≡ two_clients.client_usernames)
    × ((n : Log) × SentTo log_sockets 6 two_clients.network n × (t.network ≡ log_sockets.close n 6))
handle_client-silent_example =
    handle_client-silent log_sockets 6 (codes "PING" ∷ codes "CHAT hi" ∷ []) two_clients
      (refl, (refl, tt))

-- The third number and the fourth of 172.200.1.2, which is a public address.
is_private-address_example : is_private (codes "172.200.1.2") ≡ some true
unfolding decimal
is_private-address_example = is_private-address 172 200 (codes "1.2") (omega arith) (omega arith)

-- A system with one private address, whose calls all succeed and whose select times out.
abbrev idle_listener : Listener (List Text)
idle_listener = record {
  socket = λ n. (some 3, n ++ codes "socket" ∷ []);
  setsockopt = λ n fd. (true, n);
  getifaddrs = λ n. some (codes "127.0.0.1" ∷ codes "10.0.0.7" ∷ []);
  bind = λ n fd ip port. (true, n ++ ip ∷ []);
  listen = λ n fd. (true, n ++ codes "listen" ∷ []);
  select = λ n fd. (timeout, n);
  accept = λ n fd. (none, n);
  shutdown = λ n fd. n ++ codes "shutdown" ∷ [];
  close = λ n fd. n ++ codes "close" ∷ [];
}

abbrev AllDotted : Option (List Text) → Type 0
AllDotted none = Unit
AllDotted (some ips) = All IsDotted ips

idle-IsDotted :
    (n : List Text) (ips : List Text) → idle_listener.getifaddrs n ≡ some ips → All IsDotted ips
unfolding decimal
idle-IsDotted n ips e = subst AllDotted e (
  (127, 0, codes "0.1", omega arith, omega arith, refl),
  ((10, 0, codes "0.7", omega arith, omega arith, refl), tt),
)

run-closes_example : Closed idle_listener (some 3) (run idle_listener (true ∷ false ∷ []) [])
run-closes_example = run-closes idle_listener 3 (true ∷ []) [] [] refl idle-IsDotted

run_network :
    run idle_listener (true ∷ false ∷ []) []
    ≡ returned
        (codes "socket" ∷ codes "10.0.0.7" ∷ codes "listen" ∷ codes "shutdown" ∷ codes "close" ∷ [])
        []
        (greeting idle_listener (codes "10.0.0.7"))
unfolding run configure listen_on accept_loop get_private_ip first_private is_private
run_network = refl

-- A system that is nothing but the server, with a client whose socket cannot be made.
abbrev server_globals : Globals (Server Log) Log
server_globals = record { server = λ s. s; put_server = λ t s. t }

abbrev no_connector : Connector (Server Log)
no_connector = record {
  socket = λ s. none;
  inet_pton = λ ip. false;
  connect = λ s sock ip port. (false, s);
  send = λ s sock text. s;
  read = λ s sock. ([], s);
  close = λ s sock. s;
}

abbrev server_machine : Machine (Server Log)
server_machine = record {
  console = record {
    files = two_clients;
    input = stream [];
    users = no_user;
    out = [];
    cout_failed = false;
    echo = true;
  };
  oops_count = 0;
  restart_after_panic = false;
  rootfs_absolute_path = [];
  boot_runlevel = 3;
  runlevel = 4;
}

stop-start_example :
    let net = terminal_net server_globals log_sockets no_connector [] in
    (n : Machine (Server Log)) × ((net.stop >> net.start) server_machine ≡ returns tt n)
    × IsFresh server_globals log_sockets two_clients n.files
stop-start_example =
    stop-start server_globals log_sockets no_connector [] server_machine (λ s t. refl) refl
