-- ===== src/Server/Threads/Safety.antt =====
-- What the clients of a running server can rely on, however their threads interleave.
use lunix.Base.{ap, ℕ, ◌≡◌, ◌≢◌, ◌∙◌, true, ◌++◌}
use lunix.Base.Text.{Text, codes}
use lunix.Stream.Lines.{Lacks}
use lunix.Server.{Sockets, Server, next, turn, send_all}
use lunix.Server.Speech.{heard, turn-chat, chat-next}
use lunix.Server.Threads.{At, is_open, has_entered, System, Reach}
use lunix.Server.Threads.Invariant.{Listed}
use lunix.Server.Threads.Reachable.{Reach-Inv}

module _ {N : Type 0} (sockets : Sockets N) where
  -- In every state that a started server can reach, stopped and started again any number of times,
  -- each time when no thread is left, and in which it runs: a thread of an authenticated client that
  -- has read a chat message without a byte 0 sends it, behind the name that this client has set, to
  -- every socket of the list and nothing else to anybody; and the list has the socket of every client
  -- whose thread is in its loop, this one's too.
  pub chat_delivered :
      {server : Server N} {s : System N} (i : ℕ) (message : Text)
      → Reach sockets server s
      → s.server.running ≡ true
      → (s.threads i).at ≡ At.handling (codes "CHAT " ++ message)
      → (s.threads i).client.authenticated ≡ true
      → Lacks 0 message
      → let h = s.threads i in
        (t : Server N) × (turn sockets h.socket (codes "CHAT " ++ message) h.client s.server
          ≡ next h.client t)
        × (t.network
            ≡ send_all sockets
                (h.client.username ++ (codes ": " ++ message))
                s.server.client_sockets
                s.server.network)
        × ((j : ℕ)
            → has_entered (s.threads j).at ≡ true
            → Listed (s.threads j).socket s.server.client_sockets)
  chat_delivered {s} i message r on at_ authenticated clean =
      let h = s.threads i in
      let inv = Reach-Inv sockets r in
      let (t, e, same, n) =
        chat-next sockets h.socket h.client.username message h.client
          (heard sockets (codes "CHAT " ++ message) s.server) authenticated
          ((inv.agrees i).named on (ap is_open at_) authenticated) in
      (
        t,
        turn-chat sockets h.socket message h.client s.server clean ∙ e,
        n,
        λ j inside. (inv.agrees j).listed on inside,
      )

  -- While the server runs, no two threads have the same socket.
  sockets_differ :
      {server : Server N} {s : System N} (i j : ℕ)
      → Reach sockets server s
      → s.server.running ≡ true
      → is_open (s.threads i).at ≡ true
      → is_open (s.threads j).at ≡ true
      → i ≢ j
      → (s.threads i).socket ≢ (s.threads j).socket
  sockets_differ i j r on oi oj other same =
      other ((Reach-Inv sockets r).distinct on i j oi oj same)
