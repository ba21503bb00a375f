-- ===== src/Lsh/Closing/Network.antt =====
-- The global server of lsh.cpp and its client on an input whose last line is ":wq!".
use lunix.Base.{List}
use lunix.Stream.{Stream}
use lunix.Machine.Closing.{IsClosing, Settles-imp}
use lunix.Server.{Sockets, Server, start_server, stop_server}
use lunix.Client.{Connector, Thread}
use lunix.Client.Closing.{IsOffline, ping_server-IsClosing, connect_to_server-IsClosing}
use lunix.Stream.Closing.Words.{Whole-Loose}
use lunix.Lsh.Editor.{quit_line}
use lunix.Lsh.Network.{Globals, terminal_net, on_server}
use lunix.Lsh.Closing.{AfterWord, ClosingNet, IsWhole}

module _ {S N : Type 0} (globals : Globals S N) (sockets : Sockets N) where
  on_server-IsClosing :
      (Q : Stream → Type 0) (f : Server N → Server N) → IsClosing Q (on_server globals sockets f)
  on_server-IsClosing Q f = record { at = λ m h. h }

  pub terminal_net-ClosingNet :
      (connector : Connector S) (schedule : List Thread)
      → IsOffline connector
      → ClosingNet (terminal_net globals sockets connector schedule)
  unfolding terminal_net
  terminal_net-ClosingNet connector schedule offline = record {
    start = λ k. on_server-IsClosing (IsWhole k) (start_server sockets);
    stop = λ k. on_server-IsClosing (IsWhole k) (stop_server sockets);
    ping_server = λ k. ping_server-IsClosing connector offline (IsWhole k);
    connect_to_server = λ k address port m h.
        Settles-imp (λ n. IsWhole k n.input) (λ n. AfterWord k n.input) _
          (λ n w. Whole-Loose quit_line w)
          ((connect_to_server-IsClosing connector offline (IsWhole k) schedule address port).at m
            h);
  }
