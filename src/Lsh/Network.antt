-- ===== src/Lsh/Network.antt =====
-- The global server of lsh.cpp and its client behind the four calls of the shell.
use lunix.Base.{◌∷◌, subst, sym, ap, ◌∙◌, ℕ, ◌≡◌, refl, true, List, []}
use lunix.Security.{Console, initialize}
use lunix.Machine.{Host, Machine, M, returns, ◌>>◌, modify, put_files}
use lunix.Machine.Ends.{Ends}
use lunix.Machine.Steady.{IsSteady}
use lunix.Server.{Sockets, Server, start_server, stop_server, close_each}
use lunix.Client.{Connector, Thread, ping_server, connect_to_server}
use lunix.Client.Steady.{ping_server-IsSteady, connect_to_server-IsSteady}
use lunix.Lsh.Shell.{Net, lsh_start}
use lunix.Lsh.Steady.{SteadyNet}
use lunix.Lsh.Session.{lsh_start-session}

-- Where the state of the system has the server.
pub record Globals (S : Type 0) (N : Type 0) : Type 0 where
  pub server : S → Server N
  pub put_server : Server N → S → S

module _ {S N : Type 0} (globals : Globals S N) (sockets : Sockets N) where
  abbrev pub on_server : (Server N → Server N) → M S (Unit {0})
  on_server f = modify (λ m. put_files (globals.put_server (f (globals.server m.files)) m.files) m)

  -- The threads of the client take turns as `schedule` says.
  unfoldable pub terminal_net : Connector S → List Thread → Net S
  terminal_net connector schedule = record {
    start = on_server (start_server sockets);
    stop = on_server (stop_server sockets);
    ping_server = ping_server connector;
    connect_to_server = connect_to_server connector schedule;
  }

  on_server-IsSteady : (f : Server N → Server N) → IsSteady (on_server f)
  on_server-IsSteady f = record {
    at = λ m. record { users = refl; runlevel = refl; boot_runlevel = refl };
  }

  terminal_net-SteadyNet :
      (connector : Connector S) (schedule : List Thread)
      → SteadyNet (terminal_net connector schedule)
  unfolding terminal_net
  terminal_net-SteadyNet connector schedule = record {
    start = on_server-IsSteady (start_server sockets);
    stop = on_server-IsSteady (stop_server sockets);
    ping_server = ping_server-IsSteady connector;
    connect_to_server = connect_to_server-IsSteady connector schedule;
  }

  -- The whole shell, with the server and the client in it: where the login succeeds, lshStart keeps
  -- its user and the global runlevel 4 to its end, whatever is typed and whatever the peer of the
  -- client sends. The threads that "server start" makes are not in it.
  pub terminal-session :
      (host : Host S) (connector : Connector S) (schedule : List Thread) (fuel : ℕ) (m : Machine S)
      (c : Console S)
      → initialize host.os host.sha256 m.console ≡ (true, c)
      → Ends
          (λ n. (n.users ≡ c.users) × (n.runlevel ≡ 4) × (n.boot_runlevel ≡ m.boot_runlevel))
          (lsh_start host (terminal_net connector schedule) fuel m)
  terminal-session host connector schedule fuel m c logged =
      lsh_start-session host (terminal_net connector schedule)
        (terminal_net-SteadyNet connector schedule) fuel m c logged

  -- The network once each of the sockets, in their order, has been shut down and then closed, and
  -- nothing else been done.
  pub data Closed : List ℕ → N → N → Type 0 where
    none_left : {n : N} → Closed [] n n
    then_ :
        {s : ℕ} {ss : List ℕ} {n o : N}
        → Closed ss (sockets.close (sockets.shutdown n s) s) o
        → Closed (s ∷ ss) n o

  close_each-Closed : (ss : List ℕ) (n : N) → Closed ss n (close_each sockets ss n)
  unfolding close_each
  close_each-Closed [] n = none_left
  close_each-Closed (s ∷ ss) n = then_ (close_each-Closed ss _)

  -- The server runs, with no client, and the sockets of `s` are closed.
  pub record IsFresh (s t : Server N) : Type 0 where
    pub running : t.running ≡ true
    pub client_sockets : t.client_sockets ≡ []
    pub client_usernames : t.client_usernames ≡ []
    pub out : t.out ≡ s.out
    pub network : Closed s.client_sockets s.network t.network

  start_server-IsFresh :
      (s : Server N) → s.running ≡ true → IsFresh s (start_server sockets (stop_server sockets s))
  unfolding start_server stop_server
  start_server-IsFresh s on = rw on (record {
    running = refl;
    client_sockets = refl;
    client_usernames = refl;
    out = refl;
    network = close_each-Closed s.client_sockets s.network;
  })

  -- "server stop" and then "server start" on a running server, in a state that gives back the server
  -- that is put into it, without the threads that the two calls wait for and make: every socket of
  -- the list is shut down and then closed, in the order of the list, nothing else is done to the
  -- network, and the server runs again with no socket and no name.
  pub stop-start :
      (connector : Connector S) (schedule : List Thread) (m : Machine S)
      → ((s : S) (t : Server N) → globals.server (globals.put_server t s) ≡ t)
      → (globals.server m.files).running ≡ true
      → let net = terminal_net connector schedule in
        (n : Machine S) × ((net.stop >> net.start) m ≡ returns tt n)
        × IsFresh (globals.server m.files) (globals.server n.files)
  unfolding terminal_net
  stop-start connector schedule m put on = (
    _,
    refl,
    subst (IsFresh (globals.server m.files)) (sym (put _ _ ∙ ap (start_server sockets) (put _ _)))
        (start_server-IsFresh (globals.server m.files) on),
  )
