-- ===== src/Server.antt =====
-- server.h and server.cpp: the thread of a client, over the lists that all threads share.
pub mod Names
pub mod Speech
pub mod Quiet
pub mod Silence
pub mod Turns
pub mod Threads
pub mod Run
use lunix.Base.{
  ℕ, zero, suc, ◌==◌, ◌||◌, ltb, if◌then◌else◌, Bool, true, false, List, [], ◌∷◌, ◌++◌, Option,
  none, some, take, drop,
}
use lunix.Base.Text.{c_string, Text, codes, text_eq, join, endl, substr}

-- What the server asks of its sockets, over their state `N`: whether send wrote anything, and what
-- send, shutdown and close leave.
pub record Sockets (N : Type 0) : Type 0 where
  pub send : N → ℕ → Text → Bool × N
  pub shutdown : N → ℕ → N
  pub close : N → ℕ → N

pub record Server (N : Type 0) : Type 0 where
  pub running : Bool
  pub client_sockets : List ℕ
  pub client_usernames : List (ℕ × Text)
  pub network : N
  -- what std::cout and std::cerr have shown
  pub out : Text

-- The variables of handleClient.
pub record Client : Type 0 where
  pub username : Text
  pub authenticated : Bool

abbrev pub new_client : Client
new_client = record { username = []; authenticated = false }

-- clientUsernames[socket] = name
unfoldable pub put_name : ℕ → Text → List (ℕ × Text) → List (ℕ × Text)
put_name socket name [] = (socket, name) ∷ []
put_name socket name ((s, n) ∷ names) =
    let rest = put_name socket name names in
    if s == socket then (s, name) ∷ names else (s, n) ∷ rest

-- clientUsernames.find(socket)
unfoldable pub find_name : ℕ → List (ℕ × Text) → Option Text
find_name socket [] = none
find_name socket ((s, n) ∷ names) =
    let rest = find_name socket names in if s == socket then some n else rest

-- Where the loop of handleClient goes after a message: to the next read, out of the loop, or out of
-- the thread by std::out_of_range.
pub data Turn (N : Type 0) : Type 0 where
  next : Client → Server N → Turn N
  stop : Client → Server N → Turn N
  throws : Server N → Turn N

module _ {N : Type 0} (sockets : Sockets N) where
  abbrev pub show : Text → Server N → Server N
  show s server = record server { out = server.out ++ s }

  unfoldable pub send_all : Text → List ℕ → N → N
  send_all message [] n = n
  send_all message (s ∷ ss) n = send_all message ss (sockets.send n s message).1

  abbrev pub broadcast_message : Text → Server N → Server N
  broadcast_message message server = record server {
    network = send_all message server.client_sockets server.network;
  }

  abbrev pub broadcast_system_message : Text → Server N → Server N
  broadcast_system_message message server =
      let text = codes "SYSTEM: " ++ message in
      broadcast_message text
        (show (join (codes "Broadcasting system message: " ∷ text ∷ endl ∷ [])) server)

  -- std::string username = clientUsernames[clientSocket]: a missing name is put in, empty.
  abbrev pub username_in : ℕ → Option Text → Server N → Text × Server N
  username_in socket none server =
      ([], record server { client_usernames = put_name socket [] server.client_usernames })
  username_in socket (some name) server = (name, server)

  abbrev pub username_of : ℕ → Server N → Text × Server N
  username_of socket server = username_in socket (find_name socket server.client_usernames) server

  abbrev pub say : Text → Text × Server N → Server N
  say message (username, server) =
      let text = username ++ (codes ": " ++ message) in
      broadcast_message text (show (join (codes "Broadcasting: " ∷ text ∷ endl ∷ [])) server)

  abbrev pub handle_chat_command : Text → ℕ → Server N → Server N
  handle_chat_command message socket server = say message (username_of socket server)

  -- The end of a round of the loop.
  unfoldable pub respond : ℕ → Text → Client → Server N → Turn N
  respond socket response client server =
      let shown =
        show (join (codes "Sending response: '" ∷ response ∷ codes "'" ∷ endl ∷ [])) server in
      let (sent, n) = sockets.send shown.network socket response in
      let server' : Server N = record shown { network = n } in
      if sent
      then next client server'
      else stop client (show (codes "Error sending response to client" ++ endl) server')

  -- The branch of USER_SET, with what is behind the ninth byte.
  unfoldable pub user_set : ℕ → Option Text → Client → Server N → Turn N
  user_set socket none client server = throws server
  user_set socket (some username) client server =
      let shown = show (join (codes "User set: '" ∷ username ∷ codes "'" ∷ endl ∷ [])) server in
      let named : Server N = record shown {
        client_usernames = put_name socket username server.client_usernames;
      } in
      respond socket (codes "USER_OK") (record { username = username; authenticated = true })
        (broadcast_system_message (username ++ codes " has joined the chat.") named)

  unfoldable pub chat : ℕ → Text → Client → Server N → Turn N
  chat socket message client server =
      if client.authenticated
      then next client (handle_chat_command message socket server)
      else respond socket (codes "NOT_AUTHENTICATED") client server

  unfoldable pub handle_command : ℕ → Text → Client → Server N → Turn N
  handle_command socket command client server =
      if text_eq command (codes "PING")
      then respond socket (codes "200") client server
      else if text_eq command (codes "CONN_REQ")
      then respond socket (codes "100") client server
      else if text_eq (take 8 command) (codes "USER_SET")
      then user_set socket (substr command 9) client server
      else if text_eq command (codes "DISS")
      then stop client (show (codes "Client requested disconnect." ++ endl) server)
      else if text_eq (take 5 command) (codes "CHAT ")
      then chat socket (drop 5 command) client server
      else respond socket (codes "BAD_REQ") client server

  -- A round of the loop on the bytes that read has put into the buffer, fewer than its 1024.
  unfoldable pub turn : ℕ → Text → Client → Server N → Turn N
  turn socket bytes client server =
      let command = c_string bytes in
      handle_command socket command client
        (show (join (codes "Client sent: '" ∷ command ∷ codes "'" ∷ endl ∷ [])) server)

  -- The loop on what one read after the other gives; behind them the connection is closed.
  unfoldable pub serve : ℕ → List Text → Client → Server N → Turn N
  serve socket [] client server =
      if server.running
      then stop client (show (codes "Client disconnected." ++ endl) server)
      else stop client server
  serve socket (bytes ∷ reads) client server =
      if server.running
      then elim (turn socket bytes client server) [
        | next client' server' ↦ serve socket reads client' server'
        | stop client' server' ↦ stop client' server'
        | throws server' ↦ throws server'
      ]
      else stop client server

  unfoldable pub leave : ℕ → Client → Server N → Server N
  leave socket client server =
      let closed : Server N = record server { network = sockets.close server.network socket } in
      show (codes "Client handler thread ending." ++ endl) (
        if client.authenticated
        then broadcast_system_message (client.username ++ codes " has left the chat.") closed
        else closed)

  -- The thread ends, or ends the process by an exception: `none`.
  abbrev pub after_loop : ℕ → Turn N → Option (Server N)
  after_loop socket (next client server) = some (leave socket client server)
  after_loop socket (stop client server) = some (leave socket client server)
  after_loop socket (throws server) = none

  unfoldable pub handle_client : ℕ → List Text → Server N → Option (Server N)
  handle_client socket reads server =
      let shown = show (codes "New client connected." ++ endl) server in
      after_loop socket (
        serve socket reads new_client
          (record shown { client_sockets = server.client_sockets ++ socket ∷ [] }))

  unfoldable pub close_each : List ℕ → N → N
  close_each [] n = n
  close_each (s ∷ ss) n = close_each ss (sockets.close (sockets.shutdown n s) s)

  abbrev pub close_all_connections : Server N → Server N
  close_all_connections server = record server {
    network = close_each server.client_sockets server.network;
    client_sockets = [];
    client_usernames = [];
  }

  -- Server::stop, without the thread that it waits for.
  unfoldable pub stop_server : Server N → Server N
  stop_server server =
      if server.running then close_all_connections (record server { running = false }) else server

  -- Server::start, without the thread that it makes.
  unfoldable pub start_server : Server N → Server N
  start_server server = if server.running then server else record server { running = true }

  -- The destructor of the class.
  unfoldable pub destroy_server : Server N → Server N
  unfolding stop_server
  destroy_server server = if server.running then stop_server server else server
