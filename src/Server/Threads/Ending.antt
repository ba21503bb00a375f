-- ===== src/Server/Threads/Ending.antt =====
-- The end of the threads behind Server::stop.
use lunix.Base.{true, ℕ, suc, ◌≡◌, false, ◌⊎◌}
use lunix.Base.Text.{Text}
use lunix.Server.{close_all_connections, Sockets, Server, Turn, turn}
use lunix.Server.Threads.{wake, At, Handler, System, update, Move, Step}

-- How many moves a thread has left, at most, once the server does not run.
abbrev pub moves_left : At → ℕ
moves_left At.absent = 0
moves_left At.leaving = 1
moves_left At.testing = 2
moves_left (At.handling bytes) = 3
moves_left At.reading = 4
moves_left At.closed = 4
moves_left At.entering = 3

module _ {N : Type 0} (sockets : Sockets N) where
  abbrev pub closed_down : System N → System N
  closed_down s = record s {
    server = close_all_connections sockets s.server;
    stopping = false;
    threads = λ i. wake s.server.client_sockets (s.threads i);
  }

  -- From `s` on, with n moves of thread i and any steps of the others, of which the end
  -- of stop may wake it.
  pub data Course (i : ℕ) (s : System N) : ℕ → System N → Type 0 where
    here : Course i s 0 s
    other :
        {n : ℕ} {t u : System N}
        → Course i s n t
        → Step sockets t u
        → u.threads i ≡ t.threads i
        → Course i s n u
    woken_ :
        {n : ℕ} {t : System N} → Course i s n t → t.stopping ≡ true → Course i s n (closed_down t)
    own :
        {n : ℕ} {t : System N} (server : Server N) (h : Handler)
        → Course i s n t
        → Move sockets t.server (t.threads i) server h
        → Course i s (suc n) (record t { server = server; threads = update t.threads i h })

  -- A thread that is there can move, unless the message that it has read throws.
  abbrev pub CanMove : Server N → Handler → Type 0
  CanMove s h = (t : Server N) × (h' : Handler) × Move sockets s h t h'

  -- What a thread can still do, by where it stands.
  abbrev pub Progress : Server N → Handler → Type 0
  Progress s h =
      (h.at ≡ At.absent)
      ⊎ (CanMove s h
          ⊎ ((bytes : Text) × (t : Server N) × (h.at ≡ At.handling bytes)
              × (turn sockets h.socket bytes h.client s ≡ Turn.throws t)))
