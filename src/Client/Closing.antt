-- ===== src/Client/Closing.antt =====
-- The client where no server can be reached: its calls end, and take nothing of the input.
use lunix.Base.{arith, ℕ, List, Option, none, some, false, ◌≡◌, refl}
use lunix.Base.Text.{Text}
use lunix.Machine.{Machine, Run, M, returns, throws, exits, spent, continue}
use lunix.Machine.Closing.{IsClosing, Settles}
use lunix.Stream.{Stream}
use lunix.Client.{open_socket, Connector, Thread, ping, ping_server, converse, connect_to_server}

module _ {S : Type 0} (connector : Connector S) where
  -- connect() fails, whatever the address is.
  pub record IsOffline : Type 0 where
    pub fails :
        (s : S) (sock : ℕ) (ip : Text) (port : ℕ) → (connector.connect s sock ip port).0 ≡ false

  -- There is no socket to go on with, and the input is as it was.
  abbrev Unconnected : Machine S → Run S (Option ℕ) → Type 0
  Unconnected m (returns none n) = n.input ≡ m.input
  Unconnected m r = ⊥

  Unconnected-continue :
      {B : Type 0} (Q : Machine S → Type 0) (m : Machine S) (r : Run S (Option ℕ))
      (f : Option ℕ → M S B)
      → Unconnected m r
      → ((n : Machine S) → n.input ≡ m.input → Settles Q (f none n))
      → Settles Q (continue r f)
  Unconnected-continue Q m (returns none n) f h k = k n h
  Unconnected-continue Q m (returns (some sock) n) f h k = absurd h
  Unconnected-continue Q m (throws n) f h k = absurd h
  Unconnected-continue Q m (exits status n) f h k = absurd h
  Unconnected-continue Q m spent f h k = absurd h

  module _ (offline : IsOffline) where
    with_socket :
        (a b c ip : Text) (port : ℕ) (m : Machine S) (r : Option (ℕ × S))
        → connector.socket m.files ≡ r
        → Unconnected m (open_socket connector a b c ip port m)
    unfolding open_socket
    with_socket a b c ip port m none e = ground (arith, e)
    with_socket a b c ip port m (some (sock, s)) e = ground (arith, e, offline.fails s sock ip port)

    open_socket-Unconnected :
        (a b c ip : Text) (port : ℕ) (m : Machine S)
        → Unconnected m (open_socket connector a b c ip port m)
    open_socket-Unconnected a b c ip port m =
        with_socket a b c ip port m (connector.socket m.files) refl

  module _ (offline : IsOffline) (Q : Stream → Type 0) where
    pub ping_server-IsClosing : (ip : Text) (port : ℕ) → IsClosing Q (ping_server connector ip port)
    unfolding ping_server ping
    ping_server-IsClosing ip port = record {
      at = λ m h.
          Unconnected-continue (λ n. Q n.input) m _ _
            (open_socket-Unconnected offline _ _ _ ip port m) (λ n same. rw same h);
    }

    pub connect_to_server-IsClosing :
        (schedule : List Thread) (ip : Text) (port : ℕ)
        → IsClosing Q (connect_to_server connector schedule ip port)
    unfolding connect_to_server converse
    connect_to_server-IsClosing schedule ip port = record {
      at = λ m h.
          Unconnected-continue (λ n. Q n.input) m _ _
            (open_socket-Unconnected offline _ _ _ ip port m) (λ n same. rw same h);
    }
