-- ===== src/Server/Quiet.antt =====
-- A turn of handleClient that leaves everybody but its own client alone.
use lunix.Base.{ℕ, ◌≡◌, refl, ◌∙◌, if◌then◌else◌, Bool, true, false}
use lunix.Base.Text.{Text}
use lunix.Server.{Sockets, Server, Client, Turn, next, stop, throws, show}

module _ {N : Type 0} (sockets : Sockets N) where
  -- The network after sends to one socket and no other.
  pub data SentTo (socket : ℕ) : N → N → Type 0 where
    nothing : (n : N) → SentTo socket n n
    sent :
        (n o : N) (message : Text)
        → SentTo socket n o
        → SentTo socket n (sockets.send o socket message).1

  pub SentTo-trans :
      (socket : ℕ) (n o p : N) → SentTo socket n o → SentTo socket o p → SentTo socket n p
  SentTo-trans socket n o p h (nothing _) = h
  SentTo-trans socket n o p h (sent _ q message k) =
      sent n q message (SentTo-trans socket n o q h k)

  -- The shared lists are as they were, and only the client's own socket was written to.
  pub record Apart (socket : ℕ) (s t : Server N) : Type 0 where
    pub network : SentTo socket s.network t.network
    pub usernames : t.client_usernames ≡ s.client_usernames
    pub client_sockets : t.client_sockets ≡ s.client_sockets

  pub Apart-trans :
      (socket : ℕ) (s t u : Server N) → Apart socket s t → Apart socket t u → Apart socket s u
  Apart-trans socket s t u a b = record {
    network = SentTo-trans socket _ _ _ a.network b.network;
    usernames = b.usernames ∙ a.usernames;
    client_sockets = b.client_sockets ∙ a.client_sockets;
  }

  pub Apart-refl : {socket : ℕ} {s : Server N} → Apart socket s s
  Apart-refl {s = s} = record {
    network = nothing s.network;
    usernames = refl;
    client_sockets = refl;
  }

  pub Apart-show : (socket : ℕ) (text : Text) (s : Server N) → Apart socket s (show sockets text s)
  Apart-show socket text s = record {
    network = nothing s.network;
    usernames = refl;
    client_sockets = refl;
  }

  -- A turn that leaves the others apart and its client without a name.
  abbrev pub KeepsApart : ℕ → Server N → Turn N → Type 0
  KeepsApart socket s (next client t) = (client.authenticated ≡ false) × Apart socket s t
  KeepsApart socket s (stop client t) = (client.authenticated ≡ false) × Apart socket s t
  KeepsApart socket s (throws t) = ⊥

  pub record IsQuiet (socket : ℕ) (s : Server N) (r : Turn N) : Type 0 where
    pub at : KeepsApart socket s r

  pub IsQuiet-if :
      (socket : ℕ) (s : Server N) (b : Bool) (t u : Turn N)
      → IsQuiet socket s t
      → IsQuiet socket s u
      → IsQuiet socket s (if b then t else u)
  IsQuiet-if socket s true t u ht hu = ht
  IsQuiet-if socket s false t u ht hu = hu

  pub IsQuiet-else :
      (socket : ℕ) (s : Server N) (b : Bool) (t u : Turn N)
      → b ≡ false
      → IsQuiet socket s u
      → IsQuiet socket s (if b then t else u)
  IsQuiet-else socket s true t u e h = absurd (cc e)
  IsQuiet-else socket s false t u e h = h

  pub IsQuiet-stop :
      (socket : ℕ) (s : Server N) (client : Client) (t : Server N)
      → client.authenticated ≡ false
      → Apart socket s t
      → IsQuiet socket s (stop client t)
  IsQuiet-stop socket s client t h a = record { at = (h, a) }

  pub IsQuiet-next :
      (socket : ℕ) (s : Server N) (client : Client) (t : Server N)
      → client.authenticated ≡ false
      → Apart socket s t
      → IsQuiet socket s (next client t)
  IsQuiet-next socket s client t h a = record { at = (h, a) }

  pub IsQuiet-trans :
      (socket : ℕ) (s t : Server N) (r : Turn N)
      → Apart socket s t
      → IsQuiet socket t r
      → IsQuiet socket s r
  IsQuiet-trans socket s t (next client u) a q = record {
    at = (q.at.0, Apart-trans socket s t u a q.at.1);
  }
  IsQuiet-trans socket s t (stop client u) a q = record {
    at = (q.at.0, Apart-trans socket s t u a q.at.1);
  }
  IsQuiet-trans socket s t (throws u) a q = record { at = q.at }
