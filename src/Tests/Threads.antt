-- ===== src/Tests/Threads.antt =====
-- Threads of the server, interleaved, and instances of the theorems about them.
use lunix.Base.{false, ◌≡◌, refl, ◌++◌, [], ℕ, true, arith}
use lunix.Base.Text.{codes}
use lunix.Server.{
  respond, user_set, handle_command, Turn, Server, Client, next, turn, send_all, new_client,
  close_all_connections,
}
use lunix.Server.Threads.{
  At, has_entered, System, update, started, entered, Move, Step, Reach, later, again, restarted,
}
use lunix.Server.Threads.Invariant.{Listed}
use lunix.Server.Threads.Safety.{chat_delivered}
use lunix.Server.Threads.Invariant.{Inv}
use lunix.Server.Threads.Reachable.{Reach-Inv}
use lunix.Tests.Server.{Log, log_sockets}
use lunix.Server.{show, leave}
use lunix.Base.Text.{endl}
use lunix.Server.Threads.Ending.{closed_down}

abbrev stopped_server : Server Log
stopped_server = record {
  running = false;
  client_sockets = [];
  client_usernames = [];
  network = [];
  out = [];
}

abbrev ann : Client
ann = record { username = codes "ann"; authenticated = true }

-- The server once the thread of socket 4 has entered, and once ann has her name.
abbrev one_client : Server Log
one_client = entered log_sockets 4 (started log_sockets stopped_server).server

abbrev server_of : Turn Log → Server Log
server_of (Turn.next client t) = t
server_of (Turn.stop client t) = t
server_of (Turn.throws t) = t

abbrev named : Server Log
named = server_of (turn log_sockets 4 (codes "USER_SET ann") new_client one_client)

-- Thread 0 comes to another place.
abbrev then_at : Server Log → Client → At → System Log → System Log
then_at server client at_ s = record s {
  server = server;
  threads = update s.threads 0 (record { socket = 4; client = client; at = at_ });
}

-- One thread, which has read a chat message.
abbrev speaking : System Log
speaking = then_at named ann (At.handling (codes "CHAT hi")) (
    then_at named ann At.reading (
      then_at named ann At.testing (
        then_at one_client new_client (At.handling (codes "USER_SET ann")) (
          then_at one_client new_client At.reading (
            then_at one_client new_client At.testing (
              then_at (started log_sockets stopped_server).server new_client At.entering
                (started log_sockets stopped_server)))))))

speaking_reached : Reach log_sockets stopped_server speaking
unfolding turn handle_command user_set respond
speaking_reached =
    later
      (later
        (later
          (later
            (later
              (later (later Reach.start (Step.accept 0 4 refl (λ on j open_. absurd (cc open_))))
                (Step.move 0 _ _ (Move.enter refl)))
              (Step.move 0 _ _ (Move.go_on refl refl)))
            (Step.move 0 _ _ (Move.read b'U' (codes "SER_SET ann") refl)))
          (Step.move 0 _ _ (Move.answer (codes "USER_SET ann") ann named refl refl)))
        (Step.move 0 _ _ (Move.go_on refl refl)))
      (Step.move 0 _ _ (Move.read b'C' (codes "HAT hi") refl))

-- What ann says next goes to the one socket there is.
chat_delivered_example :
    (t : Server Log) × (turn log_sockets 4 (codes "CHAT " ++ codes "hi") ann named ≡ next ann t)
    × (t.network
        ≡ send_all log_sockets
            (codes "ann" ++ (codes ": " ++ codes "hi"))
            named.client_sockets
            named.network)
    × ((j : ℕ)
        → has_entered (speaking.threads j).at ≡ true
        → Listed (speaking.threads j).socket named.client_sockets)
unfolding turn handle_command user_set respond
chat_delivered_example =
    chat_delivered log_sockets 0 (codes "hi") speaking_reached refl refl refl (omega arith)

Reach-Inv_example : Inv speaking
Reach-Inv_example = Reach-Inv log_sockets speaking_reached

-- Server::stop has begun while the thread of socket 4 is in read.
abbrev in_read_ : System Log
in_read_ = then_at one_client new_client At.reading (
    then_at one_client new_client At.testing (
      then_at (started log_sockets stopped_server).server new_client At.entering
        (started log_sockets stopped_server)))

abbrev halted : System Log
halted = record in_read_ { server = record in_read_.server { running = false }; stopping = true }

-- Its end wakes the thread, which finds its connection closed, and leaves.
abbrev cut_off : System Log
cut_off = closed_down log_sockets halted

abbrev shown : Server Log
shown = show log_sockets (codes "Client disconnected." ++ endl) cut_off.server

abbrev left : System Log
left =
    then_at (leave log_sockets 4 new_client shown) new_client At.absent
      (then_at shown new_client At.leaving cut_off)

-- The server is stopped and started again, with no client.
abbrev run_again : System Log
run_again = restarted log_sockets (record (started log_sockets stopped_server) {
  server = close_all_connections log_sockets stopped_server;
})

run_again_reached : Reach log_sockets stopped_server run_again
run_again_reached =
    again (later (later Reach.start (Step.halt refl)) (Step.close_all refl)) refl refl (λ i. refl)
