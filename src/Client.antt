-- ===== src/Client.antt =====
-- client.h and client.cpp: the client of the chat server.
pub mod Keeps
pub mod Protocol
pub mod Steady
pub mod Ending
pub mod Greeting
pub mod Session
pub mod Closing
use lunix.Base.{
  ℕ, zero, suc, ◌==◌, ◌||◌, if◌then◌else◌, Bool, true, false, List, [], ◌∷◌, ◌++◌, Option, none,
  some, take,
}
use lunix.Base.Text.{Text, codes, text_eq, join, endl, is_empty, finds, c_string}
use lunix.Color.{reset, yellow}
use lunix.Stream.{Stream, newline, getline, read_word, ignore_line}
use lunix.Machine.{
  Machine, Run, M, returns, spent, ◌>>=◌, ◌>>◌, pure, skip, print, print_error, modify, gets,
  put_out, put_input, put_files,
}

-- What the client asks of its sockets, over the state `S` of the system: socket fails with none,
-- read and recv give no bytes at the end and after an error, and nobody looks at what send returns.
-- A call gives its result at once: a read that waits for ever and the signal of a send to a closed
-- connection, SIGPIPE, are outside the model.
pub record Connector (S : Type 0) : Type 0 where
  pub socket : S → Option (ℕ × S)
  pub inet_pton : Text → Bool
  pub connect : S → ℕ → Text → ℕ → Bool × S
  pub send : S → ℕ → Text → S
  pub read : S → ℕ → Text × S
  pub close : S → ℕ → S

-- Where the thread of connectToServer stands in its loop: at the test of `running`, in getline, in
-- the join behind the loop, or at the end.
pub data Typing : Type 0 where
  testing typing joining finished : Typing

-- Where the thread of receiveMessages stands: at the test, in recv, or at the end.
pub data Receiving : Type 0 where
  testing receiving ended : Receiving

-- Who moves next.
pub data Thread : Type 0 where
  typist receiver : Thread

-- The two threads and what they share: the machine, `running` and the socket; `line` is the
-- variable that getline writes to.
pub record Chat (S : Type 0) : Type 0 where
  pub machine : Machine S
  pub running : Bool
  pub line : Text
  pub typing_at : Typing
  pub receiving_at : Receiving

abbrev pub invalid_command : Text
invalid_command = codes "Invalid command. Use 'CHAT [message]' to send a message." ++ endl

module _ {S : Type 0} (connector : Connector S) where
  abbrev pub send_to : ℕ → Text → Machine S → Machine S
  send_to sock text m = put_files (connector.send m.files sock text) m

  abbrev pub close_socket : ℕ → Machine S → Machine S
  close_socket sock m = put_files (connector.close m.files sock) m

  -- A read into the cleared buffer, as the text that strcmp and strstr see.
  unfoldable pub read_text : ℕ → M S Text
  read_text sock m =
      let (bytes, s) = connector.read m.files sock in returns (c_string bytes) (put_files s m)

  -- socket, inet_pton and connect, with the texts of the three failures.
  unfoldable pub open_socket : Text → Text → Text → Text → ℕ → M S (Option ℕ)
  open_socket no_socket bad_address no_connection ip port m = elim (connector.socket m.files) [
    | none ↦ (do print_error no_socket; pure none) m
    | some (sock, s) ↦
        (let (connected, s') = connector.connect s sock ip port in
          if connector.inet_pton ip
          then (if connected
              then returns (some sock) (put_files s' m)
              else (do print_error no_connection; pure none) (put_files s' m))
          else (do print_error bad_address; pure none) (put_files s m))
  ]

  -- pingServer behind the connection.
  unfoldable pub ping : Option ℕ → M S Bool
  ping none = pure false
  ping (some sock) = do
    modify (send_to sock (codes "PING"))
    print (codes "Ping message sent\n")
    reply ← read_text sock
    modify (close_socket sock)
    pure (text_eq reply (codes "200"))

  unfoldable pub ping_server : Text → ℕ → M S Bool
  ping_server ip port = do
    connection ←
        open_socket (codes "Socket creation error\n")
          (codes "Invalid address/ Address not supported\n") (codes "Connection failure\n") ip port
    ping connection

  -- std::cin >> input
  unfoldable pub read_name : M S Text
  read_name m = let (name, input') = read_word [] m.input in returns name (put_input input' m)

  unfoldable pub refuse : ℕ → Text → M S (Option Text)
  refuse sock text = do print_error (text ++ endl); modify (close_socket sock); pure none

  unfoldable pub accept : Text → M S (Option Text)
  accept name = do print (codes "User authentication successful" ++ endl); pure (some name)

  -- From the reply to USER_SET, and the one read behind it if USER_OK is not there.
  unfoldable pub await_ok : ℕ → Text → M S (Option Text)
  await_ok sock name = do
    reply ← read_text sock
    if finds reply (codes "USER_OK") then accept name else (do
      second ← read_text sock
      if finds second (codes "USER_OK")
          then accept name
          else refuse sock (codes "User authentication failed"))

  unfoldable pub set_user : ℕ → M S (Option Text)
  set_user sock = do
    print (codes "Enter your username: ")
    name ← read_name
    modify (send_to sock (codes "USER_SET " ++ name))
    await_ok sock name

  -- connectToServer from the connection to the start of the chat: the name, if the server took it.
  unfoldable pub handshake : ℕ → M S (Option Text)
  handshake sock = do
    print (codes "Connected to server" ++ endl)
    modify (send_to sock (codes "CONN_REQ"))
    reply ← read_text sock
    if text_eq reply (codes "100")
        then set_user sock
        else refuse sock (codes "Unexpected server response")

  -- What the loop of connectToServer does with a line that is not /exit.
  unfoldable pub take_line : ℕ → Text → Machine S → Machine S
  take_line sock line m =
      if text_eq (take 5 line) (codes "CHAT ")
      then send_to sock line m
      else if is_empty line
      then m
      else put_out invalid_command m

  -- `running = false`, and what is behind the join once the receiver has ended.
  abbrev pub join_receiver : ℕ → Receiving → Chat S → Chat S
  join_receiver sock ended c = record c {
    machine = put_out (codes "Disconnected from server" ++ endl) (close_socket sock c.machine);
    running = false;
    typing_at = finished;
  }
  join_receiver sock _ c = record c { running = false }

  unfoldable pub typist_step : ℕ → Typing → Chat S → Chat S
  typist_step sock testing c =
      if c.running
      then record c { machine = put_out (codes "> ") c.machine; typing_at = typing }
      else record c { typing_at = joining }
  typist_step sock typing c =
      let (line, input') = getline newline c.line c.machine.input in
      let m : Machine S = put_input input' c.machine in
      if text_eq line (codes "/exit")
      then record c {
        machine = send_to sock (codes "DISS") m;
        running = false;
        line = line;
        typing_at = joining;
      }
      else record c { machine = take_line sock line m; line = line; typing_at = testing }
  typist_step sock joining c = join_receiver sock c.receiving_at c
  typist_step sock finished c = c

  abbrev pub shown : Text → Text
  shown message =
      (if finds message (codes "SYSTEM:")
        then join (codes "\r" ∷ yellow ∷ message ∷ reset ∷ endl ∷ [])
        else join (codes "\r" ∷ message ∷ endl ∷ []))
      ++ codes "> "

  abbrev pub receive : Text × S → Chat S → Chat S
  receive ([], s) c = record c {
    machine = put_out (codes "\nServer closed the connection" ++ endl) (put_files s c.machine);
    running = false;
    receiving_at = ended;
  }
  receive (b ∷ bytes, s) c = record c {
    machine = put_out (shown (c_string (b ∷ bytes))) (put_files s c.machine);
    receiving_at = testing;
  }

  unfoldable pub receiver_step : ℕ → Receiving → Chat S → Chat S
  receiver_step sock testing c =
      if c.running then record c { receiving_at = receiving } else record c { receiving_at = ended }
  receiver_step sock receiving c = receive (connector.read c.machine.files sock) c
  receiver_step sock ended c = c

  unfoldable pub chat_step : ℕ → Thread → Chat S → Chat S
  chat_step sock typist c = typist_step sock c.typing_at c
  chat_step sock receiver c = receiver_step sock c.receiving_at c

  -- The chat under a schedule of the two threads.
  unfoldable pub chat_steps : ℕ → List Thread → Chat S → Chat S
  chat_steps sock [] c = c
  chat_steps sock (w ∷ ws) c = chat_steps sock ws (chat_step sock w c)

  abbrev pub result : Typing → Machine S → Run S Bool
  result finished m = returns true m
  result _ m = spent

  abbrev pub new_chat : Text → Machine S → Chat S
  new_chat name m = record {
    machine =
        put_out
          (codes "Connected to server. Type '/exit' to quit or 'CHAT [message]' to send a message."
            ++ endl)
          (put_input (ignore_line m.input) m);
    running = true;
    line = name;
    typing_at = testing;
    receiving_at = testing;
  }

  -- The chat, if there was a handshake.
  unfoldable pub chat_with : ℕ → List Thread → Option Text → M S Bool
  chat_with sock schedule none m = returns false m
  chat_with sock schedule (some name) m =
      let c = chat_steps sock schedule (new_chat name m) in result c.typing_at c.machine

  unfoldable pub converse : List Thread → Option ℕ → M S Bool
  converse schedule none = pure false
  converse schedule (some sock) = do name ← handshake sock; chat_with sock schedule name

  unfoldable pub connect_to_server : List Thread → Text → ℕ → M S Bool
  connect_to_server schedule ip port = do
    connection ←
        open_socket (codes "Socket creation error" ++ endl)
          (codes "Invalid address/ Address not supported" ++ endl)
          (codes "Connection Failed" ++ endl) ip port
    converse schedule connection
