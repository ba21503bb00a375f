-- ===== src/Server/Turns.antt =====
-- What a turn does to what the threads share.
use lunix.Base.{
  ℕ, ◌≡◌, ◌≢◌, refl, ◌∙◌, if◌then◌else◌, Bool, true, false, List, [], Option, none, some, arith,
}
use lunix.Base.Text.{c_string, Text, codes}
use lunix.Server.{
  username_in, say, Sockets, Server, Client, Turn, next, stop, throws, show, find_name, put_name,
  respond, user_set, chat, handle_chat_command, handle_command, turn,
}
use lunix.Server.Names.{find_name-put_name, find_name-put_name_cases}

-- The name of an authenticated client stands in the map.
abbrev pub IsNamed : {N : Type 0} → ℕ → Client → Server N → Type 0
IsNamed socket client s =
    client.authenticated ≡ true → find_name socket s.client_usernames ≡ some client.username

-- From `s`, with a client on the socket, to `t` with the client as it is then.
pub record Keeps {N : Type 0} (socket : ℕ) (client : Client) (s : Server N) (c : Client)
    (t : Server N) : Type 0 where
  pub running : t.running ≡ s.running
  pub client_sockets : t.client_sockets ≡ s.client_sockets
  pub others :
      (o : ℕ) → o ≢ socket → find_name o t.client_usernames ≡ find_name o s.client_usernames
  pub named : IsNamed socket client s → IsNamed socket c t

module _ {N : Type 0} (sockets : Sockets N) (socket : ℕ) (client : Client) where
  abbrev pub KeepsAll : Server N → Turn N → Type 0
  KeepsAll s (next c t) = Keeps socket client s c t
  KeepsAll s (stop c t) = Keeps socket client s c t
  KeepsAll s (throws t) = Unit {0}

  pub record IsKeeping (s : Server N) (r : Turn N) : Type 0 where
    pub at : KeepsAll s r

  IsKeeping-if :
      (s : Server N) (b : Bool) (t u : Turn N)
      → IsKeeping s t
      → IsKeeping s u
      → IsKeeping s (if b then t else u)
  IsKeeping-if s true t u ht hu = ht
  IsKeeping-if s false t u ht hu = hu

  IsKeeping-stop : (s : Server N) (text : Text) → IsKeeping s (stop client (show sockets text s))
  IsKeeping-stop s text = record {
    at = record { running = refl; client_sockets = refl; others = λ o h. refl; named = λ h. h };
  }

  -- What is sent and shown does not matter.
  next-IsKeeping :
      (s : Server N) (c : Client) (t : Server N) (n : N) (o : Text)
      → Keeps socket client s c t
      → IsKeeping s (next c (record t { network = n; out = o }))
  next-IsKeeping s c t n o k = record {
    at = record {
      running = k.running;
      client_sockets = k.client_sockets;
      others = k.others;
      named = k.named;
    };
  }

  stop-IsKeeping :
      (s : Server N) (c : Client) (t : Server N) (n : N) (o : Text)
      → Keeps socket client s c t
      → IsKeeping s (stop c (record t { network = n; out = o }))
  stop-IsKeeping s c t n o k = record { at = (next-IsKeeping s c t n o k).at }

  -- A reply to a client that is `c` by now, on a server that is `t` by now.
  respond-after :
      (response : Text) (c : Client) (s t : Server N)
      → Keeps socket client s c t
      → IsKeeping s (respond sockets socket response c t)
  unfolding respond
  respond-after response c s t k =
      IsKeeping-if s _ _ _ (next-IsKeeping s c t _ _ k) (stop-IsKeeping s c t _ _ k)

  respond-IsKeeping :
      (response : Text) (s : Server N) → IsKeeping s (respond sockets socket response client s)
  respond-IsKeeping response s =
      respond-after response client s s
        (record { running = refl; client_sockets = refl; others = λ o h. refl; named = λ h. h })

  put_name-others :
      (name : Text) (names : List (ℕ × Text)) (o : ℕ)
      → o ≢ socket
      → find_name o (put_name socket name names) ≡ find_name o names
  put_name-others name names o h = find_name-put_name_cases socket o name names ∙ ground (arith, h)

  user_set-IsKeeping :
      (rest : Option Text) (s : Server N) → IsKeeping s (user_set sockets socket rest client s)
  user_set-IsKeeping none s = unfold user_set in record { at = tt }
  user_set-IsKeeping (some name) s =
      unfold user_set in
      respond-after (codes "USER_OK") _ s _ (record {
        running = refl;
        client_sockets = refl;
        others = put_name-others name s.client_usernames;
        named = λ h a. find_name-put_name socket name s.client_usernames;
      })

  say-Keeps :
      (message : Text) (s : Server N) (r : Option Text)
      → find_name socket s.client_usernames ≡ r
      → Keeps socket client s client (say sockets message (username_in sockets socket r s))
  say-Keeps message s none e = record {
    running = refl;
    client_sockets = refl;
    others = put_name-others [] s.client_usernames;
    named = λ h a. absurd (cc (h a, e));
  }
  say-Keeps message s (some name) e = record {
    running = refl;
    client_sockets = refl;
    others = λ o h. refl;
    named = λ h. h;
  }

  said :
      (message : Text) (s : Server N)
      → IsKeeping s (next client (handle_chat_command sockets message socket s))
  said message s = record { at = say-Keeps message s (find_name socket s.client_usernames) refl }

  chat-IsKeeping :
      (message : Text) (s : Server N) → IsKeeping s (chat sockets socket message client s)
  unfolding chat
  chat-IsKeeping message s =
      IsKeeping-if s client.authenticated _ _ (said message s)
        (respond-IsKeeping (codes "NOT_AUTHENTICATED") s)

  handle_command-IsKeeping :
      (command : Text) (s : Server N) → IsKeeping s (handle_command sockets socket command client s)
  handle_command-IsKeeping command s =
      unfold handle_command in
      search (IsKeeping-if, IsKeeping-stop, respond-IsKeeping, user_set-IsKeeping, chat-IsKeeping)
        depth 12

  shown :
      (s : Server N) (text : Text) (c : Client) (t : Server N)
      → Keeps socket client (show sockets text s) c t
      → Keeps socket client s c t
  shown s text c t k = record {
    running = k.running;
    client_sockets = k.client_sockets;
    others = k.others;
    named = k.named;
  }

  IsKeeping-show :
      (s : Server N) (text : Text) (r : Turn N) → IsKeeping (show sockets text s) r → IsKeeping s r
  IsKeeping-show s text (next c t) k = next-IsKeeping s c t t.network t.out (shown s text c t k.at)
  IsKeeping-show s text (stop c t) k = stop-IsKeeping s c t t.network t.out (shown s text c t k.at)
  IsKeeping-show s text (throws t) k = record { at = tt }

  -- The turn of a client keeps `running`, the list of sockets and the names of the other sockets,
  -- and leaves an authenticated client with its name in the map.
  pub turn-IsKeeping :
      (bytes : Text) (s : Server N) → IsKeeping s (turn sockets socket bytes client s)
  turn-IsKeeping bytes s =
      unfold turn in IsKeeping-show s _ _ (handle_command-IsKeeping (c_string bytes) _)
