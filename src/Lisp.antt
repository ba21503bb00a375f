-- ===== src/Lisp.antt =====
-- The client of client.cpp and the handleClient of server.cpp on one connection.
use mathlib.Core.List.{append_assoc, append-nil}
use lunix.Base.{
  none, subst, ◌&&◌, ◌||◌, ◌≢◌, All-append, Bool, if_intro, ℕ, ◌==◌, false, ◌≡◌, refl, sym, ◌∙◌, ap,
  if◌then◌else◌, true, List, [], ◌∷◌, ◌++◌, some, arith,
}
use lunix.Base.Text.{text_eq, Text, codes, join, finds, c_string}
use lunix.Stream.Lines.{Lacks, c_string-Lacks}
use lunix.Server.{
  respond, handle_command, Sockets, Server, Client, new_client, Turn, turn, send_all,
}
use lunix.Server.Speech.{joined, turn-user_set, user_set-next, heard}
use lunix.Machine.{Machine}
use lunix.Machine.Ends.{Returns}
use lunix.Client.{Connector, handshake}
use lunix.Client.Greeting.{typed_name, first_read, second_read, third_read, handshake-cases}

-- What a server has sent, in order, when every send goes through.
abbrev pub Log : Type 0
Log = List (ℕ × Text)

abbrev recorder : Sockets Log
recorder = record {
  send = λ n socket text. (true, n ++ (socket, text) ∷ []);
  shutdown = λ n socket. n;
  close = λ n socket. n;
}

abbrev texts : ℕ → Log → List Text
texts socket [] = []
texts socket ((s, text) ∷ n) = if s == socket then text ∷ texts socket n else texts socket n

abbrev behind : Turn Log → Server Log
behind (Turn.next client server) = server
behind (Turn.stop client server) = server
behind (Turn.throws server) = server

-- What a round of handleClient on a message sends to its own client, in order.
abbrev pub answers : ℕ → Text → Client → Server Log → List Text
answers socket bytes client s =
    texts socket (behind (turn recorder socket bytes client (record s { network = [] }))).network

-- A broadcast comes once for each time that the list has the socket.
abbrev copies : ℕ → Text → List ℕ → List Text
copies socket text [] = []
copies socket text (s ∷ ss) =
    if s == socket then text ∷ copies socket text ss else copies socket text ss

texts-append : (socket : ℕ) (m n : Log) → texts socket (m ++ n) ≡ texts socket m ++ texts socket n
texts-append socket [] n = refl
texts-append socket ((s, text) ∷ m) n = ground (arith, texts-append socket m n)

one-copy :
    (b : Bool) (text : Text) (rest : List Text)
    → (if b then text ∷ [] else []) ++ rest ≡ (if b then text ∷ rest else rest)
one-copy true text rest = refl
one-copy false text rest = refl

texts-own : (socket : ℕ) (text : Text) → texts socket ((socket, text) ∷ []) ≡ text ∷ []
texts-own socket text = ground arith

texts-send_all :
    (socket : ℕ) (text : Text) (ss : List ℕ) (n : Log)
    → texts socket (send_all recorder text ss n) ≡ texts socket n ++ copies socket text ss
unfolding send_all
texts-send_all socket text [] n = sym (append-nil (texts socket n))
texts-send_all socket text (s ∷ ss) n =
    texts-send_all socket text ss (n ++ (s, text) ∷ [])
    ∙ ap (λ ts. ts ++ copies socket text ss) (texts-append socket n ((s, text) ∷ []))
    ∙ append_assoc (texts socket n) (texts socket ((s, text) ∷ [])) (copies socket text ss)
    ∙ ap (λ ts. texts socket n ++ ts) (one-copy (s == socket) text (copies socket text ss))

answers-conn_req :
    (socket : ℕ) (client : Client) (s : Server Log)
    → answers socket (codes "CONN_REQ") client s ≡ codes "100" ∷ []
unfolding turn handle_command respond
answers-conn_req socket client s = ground arith

answers-user_set :
    (socket : ℕ) (name : Text) (client : Client) (s : Server Log)
    → Lacks 0 name
    → answers socket (codes "USER_SET " ++ name) client s
      ≡ copies socket (joined recorder name) s.client_sockets ++ codes "USER_OK" ∷ []
answers-user_set socket name client s h =
    let start : Server Log = record s { network = [] } in
    let (t, e, same, found, n) =
      user_set-next recorder socket name client (heard recorder (codes "USER_SET " ++ name) start)
        refl in
    ap (λ r. texts socket (behind r).network)
      (turn-user_set recorder socket name client start h ∙ e)
    ∙ ap (texts socket) n
    ∙ texts-append socket (send_all recorder (joined recorder name) s.client_sockets []) _
    ∙ ap (λ ts. ts ++ texts socket ((socket, codes "USER_OK") ∷ []))
        (texts-send_all socket (joined recorder name) s.client_sockets [])
    ∙ ap (λ ts. copies socket (joined recorder name) s.client_sockets ++ ts)
        (texts-own socket (codes "USER_OK"))

-- The texts reach the two reads behind USER_SET: all in the first, or one in each.
pub data Delivered (sent : List Text) (second third : Text) : Type 0 where
  together : second ≡ join sent → Delivered sent second third
  apart : sent ≡ second ∷ third ∷ [] → Delivered sent second third

last : Text → List Text → Text
last text [] = text
last text (t ∷ ts) = last t ts

last-append : (text end : Text) (ts : List Text) → last text (ts ++ end ∷ []) ≡ end
unfolding last
last-append text end [] = refl
last-append text end (t ∷ ts) = last-append t end ts

join-append : (ss ts : List Text) → join (ss ++ ts) ≡ join ss ++ join ts
join-append [] ts = refl
join-append (s ∷ ss) ts =
    ap (λ r. s ++ r) (join-append ss ts) ∙ sym (append_assoc s (join ss) (join ts))

finds-append : (s t u : Text) → finds t u ≡ true → finds (s ++ t) u ≡ true
finds-append [] t u h = h
finds-append (c ∷ s) t u h = ground (arith, finds-append s t u h)

copies-Lacks :
    (socket : ℕ) (text : Text) (ss : List ℕ) → Lacks 0 text → Lacks 0 (join (copies socket text ss))
copies-Lacks socket text [] h = tt
copies-Lacks socket text (s ∷ ss) h =
    let rest = copies-Lacks socket text ss h in
    if_intro (λ (ts : List Text). Lacks 0 (join ts)) (s == socket) _ _
      (λ e. All-append (λ c. c ≢ 0) text _ h rest) (λ e. rest)

joined-Lacks : (name : Text) → Lacks 0 name → Lacks 0 (joined recorder name)
joined-Lacks name h =
    All-append (λ c. c ≢ 0) (codes "SYSTEM: ") _ (ground arith)
      (All-append (λ c. c ≢ 0) name _ h (ground arith))

-- USER_OK stands in all that the server answers to USER_SET.
user_ok-together :
    (socket : ℕ) (name : Text) (ss : List ℕ)
    → Lacks 0 name
    → finds
        (c_string (join (copies socket (joined recorder name) ss ++ codes "USER_OK" ∷ [])))
        (codes "USER_OK")
      ≡ true
user_ok-together socket name ss h =
    let before = copies socket (joined recorder name) ss in
    let end = codes "USER_OK" ∷ [] in
    rw (join-append before end) (
      rw
        (c_string-Lacks (join before ++ join end) (
          All-append (λ c. c ≢ 0) (join before) (join end)
            (copies-Lacks socket _ ss (joined-Lacks name h)) (ground arith)))
        (finds-append (join before) (join end) (codes "USER_OK") refl))

last-apart :
    (sent : List Text) (end second third : Text)
    → sent ++ end ∷ [] ≡ second ∷ third ∷ []
    → third ≡ end
unfolding last
last-apart sent end second third e = sym (ap (last []) e) ∙ last-append [] end sent

or_true : (b : Bool) → (b || true) ≡ true
or_true true = refl
or_true false = refl

ap2_and : {a b : Bool} → a ≡ true → b ≡ true → (a && b) ≡ true
ap2_and e f = rw (e, f) refl

either_read :
    (socket : ℕ) (name second third : Text) (client : Client) (s : Server Log)
    → Lacks 0 name
    → Delivered (answers socket (codes "USER_SET " ++ name) client s) second third
    → (finds (c_string second) (codes "USER_OK") || finds (c_string third) (codes "USER_OK")) ≡ true
either_read socket name second third client s h (Delivered.together e) =
    let all = e ∙ ap join (answers-user_set socket name client s h) in
    rw (all, user_ok-together socket name s.client_sockets h) refl
either_read socket name second third client s h (Delivered.apart e) =
    let end =
      last-apart (copies socket (joined recorder name) s.client_sockets) (codes "USER_OK") second
        third (sym (answers-user_set socket name client s h) ∙ e) in
    rw end (or_true (finds (c_string second) (codes "USER_OK")))

module _ {S : Type 0} (connector : Connector S) (sock : ℕ) where
  -- The client and the server agree: where the first read of the handshake gives what a server
  -- answers to CONN_REQ, and the two reads behind USER_SET give what a server answers to it, all in
  -- the first or one answer in each, and the name has no byte 0, the handshake returns that name.
  pub handshake-answers :
      (m : Machine S) (socket : ℕ) (client : Client) (s t : Server Log)
      → Lacks 0 (typed_name connector sock m)
      → (first_read connector sock m).0 ≡ join (answers socket (codes "CONN_REQ") new_client s)
      → Delivered
          (answers socket (codes "USER_SET " ++ typed_name connector sock m) client t)
          (second_read connector sock m).0
          (third_read connector sock m).0
      → Returns (λ name n. name ≡ some (typed_name connector sock m)) (handshake connector sock m)
  handshake-answers m socket client s t h first delivered =
      let name = typed_name connector sock m in
      let greeted : text_eq (c_string (first_read connector sock m).0) (codes "100") ≡ true =
        ap (λ r. text_eq (c_string r) (codes "100"))
          (first ∙ ap join (answers-conn_req socket new_client s)) in
      let ok_ =
        either_read socket name (second_read connector sock m).0 (third_read connector sock m).0
          client t h delivered in
      subst
        (λ b.
          Returns (λ found n. found ≡ (if b then some name else none)) (handshake connector sock m))
        (ap2_and greeted ok_) (handshake-cases connector sock m)
