-- ===== src/Server/Threads/Invariant.antt =====
-- What holds whatever the order in which the threads move.
use lunix.Base.{
  ℕ, ◌≡◌, ◌≢◌, ◌⊎◌, inl, inr, refl, sym, ◌∙◌, ap, subst, true, false, List, [], ◌∷◌, ◌++◌, arith,
}
use lunix.Server.{leave, Sockets, Server, Client, find_name}
use lunix.Server.Turns.{KeepsAll, IsNamed, Keeps, turn-IsKeeping}
use lunix.Server.Threads.{
  leave_, quit, answer, disconnect, read, give_up, go_on, enter, At, is_open, has_entered, in_read,
  Handler, System, entered, Move,
}

abbrev pub Listed : ℕ → List ℕ → Type 0
Listed socket [] = ⊥
Listed socket (s ∷ ss) = (s ≡ socket) ⊎ Listed socket ss

Listed-append : (socket : ℕ) (ss ts : List ℕ) → Listed socket ss → Listed socket (ss ++ ts)
Listed-append socket [] ts h = absurd h
Listed-append socket (s ∷ ss) ts (inl e) = inl e
Listed-append socket (s ∷ ss) ts (inr h) = inr (Listed-append socket ss ts h)

Listed-last : (socket : ℕ) (ss : List ℕ) → Listed socket (ss ++ socket ∷ [])
Listed-last socket [] = inl refl
Listed-last socket (s ∷ ss) = inr (Listed-last socket ss)

-- What one thread and the server have to do with one another, while the server runs.
pub record Agrees {N : Type 0} (s : Server N) (h : Handler) : Type 0 where
  pub listed : s.running ≡ true → has_entered h.at ≡ true → Listed h.socket s.client_sockets
  pub named : s.running ≡ true → is_open h.at ≡ true → IsNamed h.socket h.client s

pub record Inv {N : Type 0} (s : System N) : Type 0 where
  pub agrees : (i : ℕ) → Agrees s.server (s.threads i)
  -- While the server runs, no two threads have the same socket.
  pub distinct :
      s.server.running ≡ true
      → (i j : ℕ) → is_open (s.threads i).at ≡ true
      → is_open (s.threads j).at ≡ true
      → (s.threads i).socket ≡ (s.threads j).socket
      → i ≡ j
  -- While Server::stop is on its way the server does not run.
  pub stopped : s.stopping ≡ true → s.server.running ≡ false

-- What a move does to the server, as the other threads see it, and to its own thread.
pub record Moves {N : Type 0} (s : Server N) (h : Handler) (t : Server N) (h' : Handler)
    : Type 0 where
  pub running : t.running ≡ s.running
  pub socket : h'.socket ≡ h.socket
  pub was_open : is_open h.at ≡ true
  pub sockets : (o : ℕ) → Listed o s.client_sockets → Listed o t.client_sockets
  pub others :
      (o : ℕ) → o ≢ h.socket → find_name o t.client_usernames ≡ find_name o s.client_usernames
  pub own : Agrees s h → Agrees t h'

has_entered-open : (a : At) → has_entered a ≡ true → is_open a ≡ true
has_entered-open At.absent e = cc
has_entered-open At.entering e = refl
has_entered-open At.testing e = refl
has_entered-open At.reading e = refl
has_entered-open At.closed e = refl
has_entered-open At.leaving e = refl
has_entered-open (At.handling bytes) e = refl

in_read-entered : (a : At) → in_read a ≡ true → has_entered a ≡ true
in_read-entered At.absent e = cc
in_read-entered At.entering e = cc
in_read-entered At.testing e = refl
in_read-entered At.reading e = refl
in_read-entered At.closed e = refl
in_read-entered At.leaving e = refl
in_read-entered (At.handling bytes) e = refl

module _ {N : Type 0} {s t : Server N} {h : Handler} (inside : has_entered h.at ≡ true) where
  -- The client goes on as `c`, the thread to another place.
  Keeps-Moves :
      (c : Client) (a : At)
      → Keeps h.socket h.client s c t
      → Moves s h t (record h { client = c; at = a })
  Keeps-Moves c a k = record {
    running = k.running;
    socket = refl;
    was_open = has_entered-open h.at inside;
    sockets = λ o l. subst (Listed o) (sym k.client_sockets) l;
    others = k.others;
    own = λ agrees. record {
      listed = λ on e.
          subst (Listed h.socket) (sym k.client_sockets)
            (agrees.listed (sym k.running ∙ on) inside);
      named = λ on e. k.named (agrees.named (sym k.running ∙ on) (has_entered-open h.at inside));
    };
  }

  -- The server keeps what the threads share.
  same-Moves :
      (a : At)
      → t.running ≡ s.running
      → t.client_sockets ≡ s.client_sockets
      → t.client_usernames ≡ s.client_usernames
      → Moves s h t (record h { at = a })
  same-Moves a on sockets names = Keeps-Moves h.client a (record {
    running = on;
    client_sockets = sockets;
    others = λ o different. ap (find_name o) names;
    named = λ known authenticated. ap (find_name h.socket) names ∙ known authenticated;
  })

module _ {N : Type 0} (sockets : Sockets N) where
  leave-fields :
      (socket : ℕ) (client : Client) (s : Server N)
      → ((leave sockets socket client s).running ≡ s.running)
        × ((leave sockets socket client s).client_sockets ≡ s.client_sockets)
        × ((leave sockets socket client s).client_usernames ≡ s.client_usernames)
  unfolding leave
  leave-fields socket client s = ground arith

  enter-Moves :
      (s : Server N) (h : Handler)
      → h.at ≡ At.entering
      → Moves s h (entered sockets h.socket s) (record h { at = At.testing })
  enter-Moves s h e = record {
    running = refl;
    socket = refl;
    was_open = ap is_open e;
    sockets = λ o l. Listed-append o s.client_sockets (h.socket ∷ []) l;
    others = λ o different. refl;
    own = λ agrees. record {
      listed = λ on inside. Listed-last h.socket s.client_sockets;
      named = λ on open_. agrees.named on (ap is_open e);
    };
  }

  pub Move-Moves :
      {s : Server N} {h : Handler} {t : Server N} {h' : Handler}
      → Move sockets s h t h'
      → Moves s h t h'
  Move-Moves {s} {h} (enter e) = enter-Moves s h e
  Move-Moves (go_on e on) = same-Moves (ap has_entered e) At.reading refl refl refl
  Move-Moves (give_up e off) = same-Moves (ap has_entered e) At.leaving refl refl refl
  Move-Moves {h = h} (read b bytes e) =
      same-Moves (in_read-entered h.at e) (At.handling (b ∷ bytes)) refl refl refl
  Move-Moves {h = h} (disconnect e) = same-Moves (in_read-entered h.at e) At.leaving refl refl refl
  Move-Moves {s} {h} (answer bytes c t e runs) = Keeps-Moves (ap has_entered e) c At.testing (
      subst (KeepsAll sockets h.socket h.client s) runs
        (turn-IsKeeping sockets h.socket h.client bytes s).at)
  Move-Moves {s} {h} (quit bytes c t e runs) = Keeps-Moves (ap has_entered e) c At.leaving (
      subst (KeepsAll sockets h.socket h.client s) runs
        (turn-IsKeeping sockets h.socket h.client bytes s).at)
  Move-Moves {s} {h} (leave_ e) =
      let kept = leave-fields h.socket h.client s in
      same-Moves (ap has_entered e) At.absent kept.0 kept.1 kept.2
