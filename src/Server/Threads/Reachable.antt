-- ===== src/Server/Threads/Reachable.antt =====
-- The invariant in every reachable state, and what it gives.
use lunix.Base.{
  inr, inl, Bool-cases, ℕ, ◌==◌, ◌≡◌, ◌≢◌, refl, sym, ◌∙◌, if_intro, true, false, arith,
}
use lunix.Server.{Sockets, Server}
use lunix.Server.Threads.{
  At, is_open, Handler, System, update, new_handler, Step, started, restarted, Reach,
}
use lunix.Server.Threads.Invariant.{Agrees, Inv, Moves, Move-Moves}

-- The sockets stay different when thread i becomes one whose open socket nobody else has.
update-distinct :
    (threads : ℕ → Handler) (i : ℕ) (h : Handler)
    → ((j k : ℕ)
        → is_open (threads j).at ≡ true
        → is_open (threads k).at ≡ true
        → (threads j).socket ≡ (threads k).socket
        → j ≡ k)
    → (is_open h.at ≡ true
        → (j : ℕ) → j ≢ i
        → is_open (threads j).at ≡ true
        → (threads j).socket ≢ h.socket)
    → (j k : ℕ) → is_open (update threads i h j).at ≡ true
    → is_open (update threads i h k).at ≡ true
    → (update threads i h j).socket ≡ (update threads i h k).socket
    → j ≡ k
update-distinct threads i h distinct new j k oj ok_ same = elim (Bool-cases (i == j)) [
  | inl e ↦ elim (Bool-cases (i == k)) [
    | inl f ↦ ground (arith, e, f)
    | inr f ↦
        absurd
          (new (rw e at oj) k (λ q. ground (arith, f, q)) (rw f at ok_) (sym (rw (e, f) at same)))
  ]
  | inr e ↦ elim (Bool-cases (i == k)) [
    | inl f ↦
        absurd (new (rw f at ok_) j (λ q. ground (arith, e, q)) (rw e at oj) (rw (e, f) at same))
    | inr f ↦ distinct j k (rw e at oj) (rw f at ok_) (rw (e, f) at same)
  ]
]

module _ {N : Type 0} where
  -- Another thread, on another socket.
  bystander :
      {s t : Server N} {h h' : Handler}
      → Moves s h t h'
      → (o : Handler) → (s.running ≡ true → is_open o.at ≡ true → o.socket ≢ h.socket)
      → Agrees s o
      → Agrees t o
  bystander m o other a = record {
    listed = λ on inside. m.sockets o.socket (a.listed (sym m.running ∙ on) inside);
    named = λ on op authenticated.
        m.others o.socket (other (sym m.running ∙ on) op)
        ∙ a.named (sym m.running ∙ on) op authenticated;
  }

  -- The threads after a move of one of them.
  Moves-Agrees :
      {s t : Server N} {h' : Handler} (threads : ℕ → Handler) (i : ℕ)
      → ((j : ℕ) → Agrees s (threads j))
      → (s.running ≡ true
          → (j : ℕ) → is_open (threads i).at ≡ true
          → is_open (threads j).at ≡ true
          → (threads i).socket ≡ (threads j).socket
          → i ≡ j)
      → Moves s (threads i) t h'
      → (j : ℕ) → Agrees t (update threads i h' j)
  Moves-Agrees {s} {t} {h'} threads i agrees distinct m j =
      if_intro (Agrees t) (i == j) h' (threads j) (λ e. m.own (agrees i))
        (λ e.
          bystander m (threads j)
            (λ on op same. ground (arith, e, distinct on j m.was_open op (sym same))) (agrees j))

module _ {N : Type 0} (sockets : Sockets N) where
  Step-Inv : {s t : System N} → Step sockets s t → Inv s → Inv t
  Step-Inv {s} (Step.accept i socket free unused) inv = record {
    agrees = λ j.
        if_intro (Agrees s.server) (i == j) (new_handler socket) (s.threads j)
          (λ e. record { listed = λ on inside. cc; named = λ on op authenticated. cc })
          (λ e. inv.agrees j);
    distinct = λ on.
        update-distinct s.threads i (new_handler socket) (inv.distinct on)
          (λ op j other oj. unused on j oj);
    stopped = inv.stopped;
  }
  Step-Inv {s} (Step.move i t h m) inv =
      let moves : Moves s.server (s.threads i) t h = Move-Moves sockets m in
      record {
        agrees = Moves-Agrees s.threads i inv.agrees (λ on. inv.distinct on i) moves;
        distinct = λ on.
            let before = inv.distinct (sym moves.running ∙ on) in
            update-distinct s.threads i h before
              (λ op j other oj same. other (before j i oj moves.was_open (same ∙ moves.socket)));
        stopped = λ halted. moves.running ∙ inv.stopped halted;
      }
  Step-Inv {s} (Step.halt on) inv = record {
    agrees = λ j. record { listed = λ on' inside. cc; named = λ on' op authenticated. cc };
    distinct = λ on. cc;
    stopped = λ halted. refl;
  }
  Step-Inv {s} (Step.close_all halted) inv = record {
    agrees = λ j. record {
      listed = λ on inside. absurd (cc (inv.stopped halted, on));
      named = λ on op authenticated. absurd (cc (inv.stopped halted, on));
    };
    distinct = λ on. absurd (cc (inv.stopped halted, on));
    stopped = λ halted'. inv.stopped halted;
  }

  -- Where there is no thread, a start makes the invariant hold, whatever the list holds.
  restarted-Inv :
      (s : System N)
      → s.stopping ≡ false
      → ((i : ℕ) → (s.threads i).at ≡ At.absent)
      → Inv (restarted sockets s)
  restarted-Inv s idle gone = record {
    agrees = λ j. record {
      listed = λ on inside. absurd (cc (gone j, inside));
      named = λ on op authenticated. absurd (cc (gone j, op));
    };
    distinct = λ on i j oi oj same. absurd (cc (gone i, oi));
    stopped = λ halted. absurd (cc (idle, halted));
  }

  started-Inv : (server : Server N) → Inv (started sockets server)
  started-Inv server = restarted-Inv (started sockets server) refl (λ i. refl)

  -- In every state that a started server can reach, stopped and started again any number of times,
  -- each time when no thread is left: while Server::stop is on its way the server does not run; and
  -- while it runs, no two threads have the same socket, the list has the socket of every thread in
  -- its loop, and every client that a thread takes for authenticated has its own name under its
  -- socket.
  pub Reach-Inv : {server : Server N} {s : System N} → Reach sockets server s → Inv s
  Reach-Inv {server} Reach.start = started-Inv server
  Reach-Inv (Reach.later r st) = Step-Inv st (Reach-Inv r)
  Reach-Inv (Reach.again {s} r off idle gone) = restarted-Inv s idle gone
