-- ===== src/Server/Silence.antt =====
-- What a client that never sets a user name can do to the others.
use lunix.Base.{none, some, Option, ℕ, ◌≡◌, refl, false, List, [], ◌∷◌, ◌++◌, All, take}
use lunix.Base.Text.{c_string, endl, Text, codes, text_eq}
use lunix.Server.{
  new_client, handle_client, after_loop, leave, Sockets, Server, Client, Turn, next, stop, throws,
  respond, handle_command, turn, serve, chat,
}
use lunix.Server.Quiet.{
  SentTo, nothing, sent, Apart, Apart-refl, Apart-show, IsQuiet, IsQuiet-if, IsQuiet-else,
  IsQuiet-stop, IsQuiet-next, IsQuiet-trans,
}

module _ {N : Type 0} (sockets : Sockets N) where
  respond-IsQuiet :
      (socket : ℕ) (response : Text) (client : Client) (s : Server N)
      → client.authenticated ≡ false
      → IsQuiet sockets socket s (respond sockets socket response client s)
  unfolding respond
  respond-IsQuiet socket response client s h =
      let said : SentTo sockets socket s.network (sockets.send s.network socket response).1 =
        sent s.network s.network response (nothing s.network) in
      IsQuiet-if sockets socket s _ _ _
        (IsQuiet-next sockets socket s client _ h
          (record { network = said; usernames = refl; client_sockets = refl }))
        (IsQuiet-stop sockets socket s client _ h
          (record { network = said; usernames = refl; client_sockets = refl }))

  chat-IsQuiet :
      (socket : ℕ) (message : Text) (client : Client) (s : Server N)
      → client.authenticated ≡ false
      → IsQuiet sockets socket s (chat sockets socket message client s)
  unfolding chat
  chat-IsQuiet socket message client s h =
      IsQuiet-else sockets socket s _ _ _ h
        (respond-IsQuiet socket (codes "NOT_AUTHENTICATED") client s h)

  handle_command-IsQuiet :
      (socket : ℕ) (command : Text) (client : Client) (s : Server N)
      → client.authenticated ≡ false
      → text_eq (take 8 command) (codes "USER_SET") ≡ false
      → IsQuiet sockets socket s (handle_command sockets socket command client s)
  handle_command-IsQuiet socket command client s h other =
      unfold handle_command in
      search (IsQuiet-if, IsQuiet-else, IsQuiet-stop, Apart-show, respond-IsQuiet, chat-IsQuiet)
        depth 12

  -- A read that does not begin with USER_SET.
  abbrev pub IsUnnamed : Text → Type 0
  IsUnnamed bytes = text_eq (take 8 (c_string bytes)) (codes "USER_SET") ≡ false

  turn-IsQuiet :
      (socket : ℕ) (bytes : Text) (client : Client) (s : Server N)
      → client.authenticated ≡ false
      → IsUnnamed bytes
      → IsQuiet sockets socket s (turn sockets socket bytes client s)
  unfolding turn
  turn-IsQuiet socket bytes client s h other =
      IsQuiet-trans sockets socket s _ _ (Apart-show sockets socket _ s)
        (handle_command-IsQuiet socket (c_string bytes) client _ h other)

  turn-more :
      (socket : ℕ) (more : Client → Server N → Turn N) (s : Server N) (r : Turn N)
      → IsQuiet sockets socket s r
      → ((client : Client) (t : Server N)
          → client.authenticated ≡ false
          → IsQuiet sockets socket t (more client t))
      → IsQuiet sockets socket s (elim r [
        | next client t ↦ more client t
        | stop client t ↦ stop client t
        | throws t ↦ throws t
      ])
  turn-more socket more s (next client t) q h =
      IsQuiet-trans sockets socket s t _ q.at.1 (h client t q.at.0)
  turn-more socket more s (stop client t) q h = q
  turn-more socket more s (throws t) q h = q

  -- Whatever a client sends, as long as no message begins with USER_SET, its thread throws no
  -- exception, leaves the shared lists of sockets and names alone, and writes to no socket but the
  -- client's own.
  pub serve-IsQuiet :
      (socket : ℕ) (reads : List Text) (client : Client) (s : Server N)
      → client.authenticated ≡ false
      → All IsUnnamed reads
      → IsQuiet sockets socket s (serve sockets socket reads client s)
  unfolding serve
  serve-IsQuiet socket [] client s h other =
      IsQuiet-if sockets socket s _ _ _
        (IsQuiet-stop sockets socket s client _ h (Apart-show sockets socket _ s))
        (IsQuiet-stop sockets socket s client s h (Apart-refl sockets))
  serve-IsQuiet socket (bytes ∷ reads) client s h other =
      IsQuiet-if sockets socket s _ _ _
        (turn-more socket (λ client' t. serve sockets socket reads client' t) s _
          (turn-IsQuiet socket bytes client s h other.0)
          (λ client' t h'. serve-IsQuiet socket reads client' t h' other.1))
        (IsQuiet-stop sockets socket s client s h (Apart-refl sockets))

  -- What the thread leaves of a loop in which the client stayed without a name.
  IsLeft : ℕ → Server N → Option (Server N) → Type 0
  IsLeft socket s none = ⊥
  IsLeft socket s (some t) =
      (t.client_sockets ≡ s.client_sockets)
      × (t.client_usernames ≡ s.client_usernames)
      × ((n : N) × SentTo sockets socket s.network n × (t.network ≡ sockets.close n socket))

  leave-IsLeft :
      (socket : ℕ) (s : Server N) (client : Client) (t : Server N)
      → client.authenticated ≡ false
      → Apart sockets socket s t
      → IsLeft socket s (some (leave sockets socket client t))
  unfolding IsLeft leave
  leave-IsLeft socket s client t h a =
      simp h (a.client_sockets, a.usernames, (t.network, a.network, refl))

  after_loop-IsLeft :
      (socket : ℕ) (s : Server N) (r : Turn N)
      → IsQuiet sockets socket s r
      → IsLeft socket s (after_loop sockets socket r)
  after_loop-IsLeft socket s (next client t) q = leave-IsLeft socket s client t q.at.0 q.at.1
  after_loop-IsLeft socket s (stop client t) q = leave-IsLeft socket s client t q.at.0 q.at.1
  after_loop-IsLeft socket s (throws t) q = absurd q.at

  IsLeft-some :
      (socket : ℕ) (s : Server N) (r : Option (Server N))
      → IsLeft socket s r
      → (t : Server N) × (r ≡ some t)
        × (t.client_sockets ≡ s.client_sockets)
        × (t.client_usernames ≡ s.client_usernames)
        × ((n : N) × SentTo sockets socket s.network n × (t.network ≡ sockets.close n socket))
  unfolding IsLeft
  IsLeft-some socket s none h = absurd h
  IsLeft-some socket s (some t) h = (t, refl, h.0, h.1, h.2)

  -- A client none of whose messages begins with USER_SET, whatever it sends, is served to an end
  -- without an exception. Its thread writes to no other socket, sets no name, and closes the
  -- socket; but the closed socket stays at the end of the list that broadcasts go to.
  pub handle_client-silent :
      (socket : ℕ) (reads : List Text) (s : Server N)
      → All IsUnnamed reads
      → (t : Server N) × (handle_client sockets socket reads s ≡ some t)
        × (t.client_sockets ≡ s.client_sockets ++ socket ∷ [])
        × (t.client_usernames ≡ s.client_usernames)
        × ((n : N) × SentTo sockets socket s.network n × (t.network ≡ sockets.close n socket))
  unfolding handle_client
  handle_client-silent socket reads s h =
      IsLeft-some socket
        (record s {
          client_sockets = s.client_sockets ++ socket ∷ [];
          out = s.out ++ (codes "New client connected." ++ endl);
        })
        _ (after_loop-IsLeft socket _ _ (serve-IsQuiet socket reads new_client _ refl h))
