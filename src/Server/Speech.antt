-- ===== src/Server/Speech.antt =====
-- What the clients hear of each other.
use lunix.Base.{
  ◌≢◌, All-append, ap, ℕ, ◌≡◌, refl, ◌∙◌, true, List, [], ◌∷◌, ◌++◌, arith, some, none,
}
use lunix.Base.Text.{endl, join, Text, codes, substr}
use lunix.Stream.Lines.{Lacks, c_string-Lacks}
use lunix.Server.{
  serve, handle_client, broadcast_message, Sockets, Server, Client, next, show, send_all, respond,
  user_set, chat, handle_command, turn, find_name, username_of, handle_chat_command,
}
use lunix.Server.Names.{find_name-put_name}

module _ {N : Type 0} (sockets : Sockets N) where
  handle_command-user_set :
      (socket : ℕ) (name : Text) (client : Client) (s : Server N)
      → handle_command sockets socket (codes "USER_SET " ++ name) client s
        ≡ user_set sockets socket (some name) client s
  unfolding handle_command
  handle_command-user_set socket name client s =
      let cut : substr (codes "USER_SET " ++ name) 9 ≡ some name = ground arith in
      ap (λ rest. user_set sockets socket rest client s) cut

  handle_command-chat :
      (socket : ℕ) (message : Text) (client : Client) (s : Server N)
      → handle_command sockets socket (codes "CHAT " ++ message) client s
        ≡ chat sockets socket message client s
  unfolding handle_command
  handle_command-chat socket message client s = refl

  abbrev pub heard : Text → Server N → Server N
  heard bytes s = show sockets (join (codes "Client sent: '" ∷ bytes ∷ codes "'" ∷ endl ∷ [])) s

  -- A turn on a message without a byte 0 is a turn on all of it.
  turn-Lacks :
      (socket : ℕ) (bytes : Text) (client : Client) (s : Server N)
      → Lacks 0 bytes
      → turn sockets socket bytes client s
        ≡ handle_command sockets socket bytes client (heard bytes s)
  unfolding turn
  turn-Lacks socket bytes client s h = rw (c_string-Lacks bytes h)

  -- What every client of the list is sent.
  abbrev pub said : Text → Server N → N
  said text s = send_all sockets text s.client_sockets s.network

  username_of-found :
      (socket : ℕ) (name : Text) (s : Server N)
      → find_name socket s.client_usernames ≡ some name
      → username_of sockets socket s ≡ (name, s)
  username_of-found socket name s found = rw (username_of, found)

  handle_chat_command-found :
      (socket : ℕ) (name message : Text) (s : Server N)
      → find_name socket s.client_usernames ≡ some name
      → let text = name ++ (codes ": " ++ message) in
        handle_chat_command sockets message socket s
        ≡ broadcast_message sockets text
            (show sockets (join (codes "Broadcasting: " ∷ text ∷ endl ∷ [])) s)
  handle_chat_command-found socket name message s found = rw (username_of-found socket name s found)

  chat-authenticated :
      (socket : ℕ) (message : Text) (client : Client) (s : Server N)
      → client.authenticated ≡ true
      → chat sockets socket message client s
        ≡ next client (handle_chat_command sockets message socket s)
  unfolding chat
  chat-authenticated socket message client s h = simp h

  pub chat-next :
      (socket : ℕ) (name message : Text) (client : Client) (s : Server N)
      → client.authenticated ≡ true
      → find_name socket s.client_usernames ≡ some name
      → (t : Server N) × (chat sockets socket message client s ≡ next client t)
        × (t.client_sockets ≡ s.client_sockets)
        × (t.network ≡ said (name ++ (codes ": " ++ message)) s)
  chat-next socket name message client s h found =
      let text = name ++ (codes ": " ++ message) in
      (
        broadcast_message sockets text
            (show sockets (join (codes "Broadcasting: " ∷ text ∷ endl ∷ [])) s),
        chat-authenticated socket message client s h
            ∙ ap (next client) (handle_chat_command-found socket name message s found),
        refl,
        refl,
      )

  respond-next :
      (socket : ℕ) (response : Text) (client : Client) (s : Server N)
      → (sockets.send s.network socket response).0 ≡ true
      → (t : Server N) × (respond sockets socket response client s ≡ next client t)
        × (t.client_sockets ≡ s.client_sockets)
        × (t.client_usernames ≡ s.client_usernames)
        × (t.network ≡ (sockets.send s.network socket response).1)
  unfolding respond
  respond-next socket response client s h = rw h (_, refl, refl, refl, refl)

  abbrev pub joined : Text → Text
  joined name = codes "SYSTEM: " ++ (name ++ codes " has joined the chat.")

  pub user_set-next :
      (socket : ℕ) (name : Text) (client : Client) (s : Server N)
      → (sockets.send (said (joined name) s) socket (codes "USER_OK")).0 ≡ true
      → (t : Server N) × (user_set sockets socket (some name) client s
          ≡ next (record { username = name; authenticated = true }) t)
        × (t.client_sockets ≡ s.client_sockets)
        × (find_name socket t.client_usernames ≡ some name)
        × (t.network ≡ (sockets.send (said (joined name) s) socket (codes "USER_OK")).1)
  unfolding user_set
  user_set-next socket name client s h =
      let (t, e, same, names, n) = respond-next socket (codes "USER_OK") _ _ h in
      (
        t,
        e,
        same,
        ap (find_name socket) names ∙ find_name-put_name socket name s.client_usernames,
        n,
      )

  pub turn-user_set :
      (socket : ℕ) (name : Text) (client : Client) (s : Server N)
      → Lacks 0 name
      → turn sockets socket (codes "USER_SET " ++ name) client s
        ≡ user_set sockets socket (some name) client (heard (codes "USER_SET " ++ name) s)
  turn-user_set socket name client s h =
      turn-Lacks socket (codes "USER_SET " ++ name) client s
        (All-append (λ c. c ≢ 0) (codes "USER_SET ") name (ground arith) h)
      ∙ handle_command-user_set socket name client _

  pub turn-chat :
      (socket : ℕ) (message : Text) (client : Client) (s : Server N)
      → Lacks 0 message
      → turn sockets socket (codes "CHAT " ++ message) client s
        ≡ chat sockets socket message client (heard (codes "CHAT " ++ message) s)
  turn-chat socket message client s h =
      turn-Lacks socket (codes "CHAT " ++ message) client s
        (All-append (λ c. c ≢ 0) (codes "CHAT ") message (ground arith) h)
      ∙ handle_command-chat socket message client _

  -- A client sends USER_SET with a name and then CHAT with a message, neither with a byte 0, and
  -- its USER_OK goes through. The first turn sends to every socket of the list that the name has
  -- joined, and USER_OK to the client. The second sends the message behind that name to every
  -- socket of the list. Neither sends anything else, and both go on with the next read.
  pub user_set_chat :
      (socket : ℕ) (name message : Text) (client : Client) (s : Server N)
      → Lacks 0 name
      → Lacks 0 message
      → (sockets.send (said (joined name) s) socket (codes "USER_OK")).0 ≡ true
      → (c : Client) × (t : Server N) × (u : Server N) × (turn sockets socket
            (codes "USER_SET " ++ name)
            client
            s
          ≡ next c t)
        × (turn sockets socket (codes "CHAT " ++ message) c t ≡ next c u)
        × (u.client_sockets ≡ s.client_sockets)
        × (t.network ≡ (sockets.send (said (joined name) s) socket (codes "USER_OK")).1)
        × (u.network
            ≡ send_all sockets (name ++ (codes ": " ++ message)) s.client_sockets t.network)
  user_set_chat socket name message client s hn hm delivered =
      let text = name ++ (codes ": " ++ message) in
      let c : Client = record { username = name; authenticated = true } in
      let (t, e, same, found, n) =
        user_set-next socket name client (heard (codes "USER_SET " ++ name) s) delivered in
      let (u, e', same', n') =
        chat-next socket name message c (heard (codes "CHAT " ++ message) t) refl found in
      (
        c,
        t,
        u,
        turn-user_set socket name client s hn ∙ e,
        turn-chat socket message c t hm ∙ e',
        same' ∙ same,
        n,
        n' ∙ ap (λ l. send_all sockets text l t.network) same,
      )

  -- While the server runs, the thread of a client whose first message is exactly USER_SET ends by
  -- an exception, whatever it would send next.
  handle_client-short :
      (socket : ℕ) (reads : List Text) (s : Server N)
      → s.running ≡ true
      → handle_client sockets socket (codes "USER_SET" ∷ reads) s ≡ none
  unfolding handle_client serve turn handle_command user_set
  handle_client-short socket reads s up = rw up
