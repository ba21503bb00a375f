-- ===== src/Server/Threads.antt =====
-- The threads of handleClient, interleaved with one another and with Server::stop. A step is what a
-- thread does between two waits: a test of `running`, a read, a message, the way out.
pub mod Invariant
pub mod Reachable
pub mod Safety
pub mod Waiting
pub mod Ending
use lunix.Base.{ℕ, ◌==◌, ◌||◌, ◌≡◌, ◌≢◌, if◌then◌else◌, Bool, true, false, List, [], ◌∷◌, ◌++◌}
use lunix.Base.Text.{Text, codes, endl}
use lunix.Server.{
  Sockets, Server, Client, new_client, next, stop, show, turn, leave, close_all_connections,
}

-- Where a thread stands: not there, before the lock of the list, at the test of the loop, in read,
-- in read on a connection that Server::stop has shut down, with a message that it has read, or
-- behind the loop.
pub data At : Type 0 where
  absent entering testing reading closed leaving : At
  handling : Text → At

pub record Handler : Type 0 where
  pub socket : ℕ
  pub client : Client
  pub at : At

-- The socket of the thread is open.
abbrev pub is_open : At → Bool
is_open At.absent = false
is_open _ = true

-- The thread has put its socket into the list.
abbrev pub has_entered : At → Bool
has_entered At.absent = false
has_entered At.entering = false
has_entered _ = true

-- In read, whose connection is perhaps shut down. The first waits for its peer, the second does not.
abbrev pub in_read : At → Bool
in_read At.reading = true
in_read At.closed = true
in_read _ = false

abbrev pub is_listed : ℕ → List ℕ → Bool
is_listed socket [] = false
is_listed socket (s ∷ ss) = (s == socket) || is_listed socket ss

-- shutdown wakes a thread that waits in read on the socket.
abbrev pub woken : Bool → At → At
woken true At.reading = At.closed
woken b a = a

-- `stopping` is that Server::stop stands between `running = false` and closeAllConnections.
pub record System (N : Type 0) : Type 0 where
  pub server : Server N
  pub stopping : Bool
  pub threads : ℕ → Handler

abbrev pub update : (ℕ → Handler) → ℕ → Handler → ℕ → Handler
update f i h j = if i == j then h else f j

-- A thread behind the shutdown of these sockets.
abbrev pub wake : List ℕ → Handler → Handler
wake sockets h = record h { at = woken (is_listed h.socket sockets) h.at }

abbrev pub new_handler : ℕ → Handler
new_handler socket = record { socket = socket; client = new_client; at = At.entering }

module _ {N : Type 0} (sockets : Sockets N) where
  abbrev pub entered : ℕ → Server N → Server N
  entered socket s =
      let shown = show sockets (codes "New client connected." ++ endl) s in
      record shown { client_sockets = s.client_sockets ++ socket ∷ [] }

  -- What one thread does. A turn that throws ends the process: nothing moves behind it.
  pub data Move (s : Server N) (h : Handler) : Server N → Handler → Type 0 where
    enter : h.at ≡ At.entering → Move s h (entered h.socket s) (record h { at = At.testing })
    go_on : h.at ≡ At.testing → s.running ≡ true → Move s h s (record h { at = At.reading })
    give_up : h.at ≡ At.testing → s.running ≡ false → Move s h s (record h { at = At.leaving })
    read :
        (b : ℕ) (bytes : Text)
        → in_read h.at ≡ true
        → Move s h s (record h { at = At.handling (b ∷ bytes) })
    disconnect :
        in_read h.at ≡ true
        → Move s h
            (show sockets (codes "Client disconnected." ++ endl) s)
            (record h { at = At.leaving })
    answer :
        (bytes : Text) (client : Client) (t : Server N)
        → h.at ≡ At.handling bytes
        → turn sockets h.socket bytes h.client s ≡ next client t
        → Move s h t (record h { client = client; at = At.testing })
    quit :
        (bytes : Text) (client : Client) (t : Server N)
        → h.at ≡ At.handling bytes
        → turn sockets h.socket bytes h.client s ≡ stop client t
        → Move s h t (record h { client = client; at = At.leaving })
    leave_ :
        h.at ≡ At.leaving
        → Move s h (leave sockets h.socket h.client s) (record h { at = At.absent })

  -- accept gives a socket that is not open: while the server runs, none of a thread's, and behind
  -- closeAllConnections perhaps one that it has closed under a thread.
  pub data Step (s : System N) : System N → Type 0 where
    accept :
        (i socket : ℕ)
        → (s.threads i).at ≡ At.absent
        → (s.server.running ≡ true
            → (j : ℕ) → is_open (s.threads j).at ≡ true
            → (s.threads j).socket ≢ socket)
        → Step s (record s { threads = update s.threads i (new_handler socket) })
    move :
        (i : ℕ) (t : Server N) (h : Handler)
        → Move s.server (s.threads i) t h
        → Step s (record s { server = t; threads = update s.threads i h })
    halt :
        s.server.running ≡ true
        → Step s (record s { server = record s.server { running = false }; stopping = true })
    close_all :
        s.stopping ≡ true
        → Step s (record s {
          server = close_all_connections sockets s.server;
          stopping = false;
          threads = λ i. wake s.server.client_sockets (s.threads i);
        })

  -- Behind Server::start on a server that did not run.
  abbrev pub started : Server N → System N
  started server = record {
    server = record server { running = true };
    stopping = false;
    threads = λ i. record { socket = 0; client = new_client; at = At.absent };
  }

  -- Server::start behind Server::stop: what the threads of the run before have left in the list and
  -- among the names is still there.
  abbrev pub restarted : System N → System N
  restarted s = record s { server = record s.server { running = true } }

  -- What can come of a server that has just been started. It is started again once it does not run
  -- and no thread of the run before is left.
  pub data Reach (server : Server N) : System N → Type 0 where
    start : Reach server (started server)
    later : {s t : System N} → Reach server s → Step s t → Reach server t
    again :
        {s : System N}
        → Reach server s
        → s.server.running ≡ false
        → s.stopping ≡ false
        → ((i : ℕ) → (s.threads i).at ≡ At.absent)
        → Reach server (restarted s)
