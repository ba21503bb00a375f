-- ===== src/Server/Threads/Waiting.antt =====
-- Which threads wait for their peers once Server::stop has been called.
use lunix.Base.{
  ℕ, ◌==◌, ◌≡◌, ◌≢◌, inl, inr, refl, sym, ◌∙◌, ap, if_intro, Bool, true, false, List, [], ◌∷◌,
  arith,
}
use lunix.Server.{Sockets, Server}
use lunix.Server.Threads.{
  has_entered, At, Handler, System, new_handler, is_listed, woken, Move, Step, Reach,
}
use lunix.Server.Threads.Invariant.{Listed, Inv, Moves, Move-Moves}
use lunix.Server.Threads.Reachable.{Reach-Inv}

is_listed-Listed : (socket : ℕ) (ss : List ℕ) → Listed socket ss → is_listed socket ss ≡ true
is_listed-Listed socket [] h = absurd h
is_listed-Listed socket (s ∷ ss) (inl e) = ground (arith, e)
is_listed-Listed socket (s ∷ ss) (inr h) = ground (arith, is_listed-Listed socket ss h)

woken-reading : (b : Bool) (a : At) → woken b a ≡ At.reading → a ≡ At.reading
woken-reading false a e = e
woken-reading true At.reading e = refl
woken-reading true At.absent e = cc
woken-reading true At.entering e = cc
woken-reading true At.testing e = cc
woken-reading true At.closed e = cc
woken-reading true At.leaving e = cc
woken-reading true (At.handling bytes) e = cc

-- While stop is on its way, the thread of every read that waits for its peer has its socket in the
-- list; behind it no read waits for its peer.
pub record Waits {N : Type 0} (s : System N) : Type 0 where
  pub listed :
      s.stopping ≡ true
      → (i : ℕ) → (s.threads i).at ≡ At.reading
      → Listed (s.threads i).socket s.server.client_sockets
  pub none_waits :
      s.server.running ≡ false → s.stopping ≡ false → (i : ℕ) → (s.threads i).at ≢ At.reading

module _ {N : Type 0} (sockets : Sockets N) where
  Move-reading :
      {s : Server N} {h : Handler} {t : Server N} {h' : Handler}
      → Move sockets s h t h'
      → h'.at ≡ At.reading
      → s.running ≡ true
  Move-reading (Move.enter e) f = cc
  Move-reading (Move.go_on e on) f = on
  Move-reading (Move.give_up e off) f = cc
  Move-reading (Move.read b bytes e) f = cc
  Move-reading (Move.disconnect e) f = cc
  Move-reading (Move.answer bytes client t e runs) f = cc
  Move-reading (Move.quit bytes client t e runs) f = cc
  Move-reading (Move.leave_ e) f = cc

  Step-Waits : {s t : System N} → Step sockets s t → Inv s → Waits s → Waits t
  Step-Waits {s} (Step.accept i socket free unused) inv w = record {
    listed = λ halted j.
        if_intro (λ (h : Handler). h.at ≡ At.reading → Listed h.socket s.server.client_sockets)
          (i == j) (new_handler socket) (s.threads j) (λ e f. absurd (cc f))
          (λ e. w.listed halted j);
    none_waits = λ off idle j.
        if_intro (λ (h : Handler). h.at ≢ At.reading) (i == j) (new_handler socket) (s.threads j)
          (λ e f. absurd (cc f)) (λ e. w.none_waits off idle j);
  }
  Step-Waits {s} (Step.move i t h m) inv w =
      let moves : Moves s.server (s.threads i) t h = Move-Moves sockets m in
      record {
        listed = λ halted j.
            if_intro (λ (o : Handler). o.at ≡ At.reading → Listed o.socket t.client_sockets)
              (i == j) h (s.threads j) (λ e f. absurd (cc (Move-reading m f, inv.stopped halted)))
              (λ e f. moves.sockets _ (w.listed halted j f));
        none_waits = λ off idle j.
            if_intro (λ (o : Handler). o.at ≢ At.reading) (i == j) h (s.threads j)
              (λ e f. absurd (cc (Move-reading m f, moves.running, off)))
              (λ e. w.none_waits (sym moves.running ∙ off) idle j);
      }
  Step-Waits {s} (Step.halt on) inv w = record {
    listed = λ halted j f. (inv.agrees j).listed on (ap has_entered f);
    none_waits = λ off idle j. absurd (cc idle);
  }
  Step-Waits {s} (Step.close_all halted) inv w = record {
    listed = λ halted' j. absurd (cc halted');
    none_waits = λ off idle j e.
        let h = s.threads j in
        let was = woken-reading (is_listed h.socket s.server.client_sockets) h.at e in
        let there = is_listed-Listed h.socket s.server.client_sockets (w.listed halted j was) in
        absurd (cc (rw (there, was) at e));
  }

  pub Reach-Waits : {server : Server N} {s : System N} → Reach sockets server s → Waits s
  Reach-Waits Reach.start = record {
    listed = λ halted j e. absurd (cc halted);
    none_waits = λ off idle j. absurd (cc off);
  }
  Reach-Waits (Reach.later r st) = Step-Waits st (Reach-Inv sockets r) (Reach-Waits r)
  Reach-Waits (Reach.again r off idle gone) = record {
    listed = λ halted j e. absurd (cc (idle, halted));
    none_waits = λ off' idle' j. absurd (cc off');
  }
