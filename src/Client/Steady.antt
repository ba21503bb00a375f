-- ===== src/Client/Steady.antt =====
-- The client leaves the session of the shell alone.
use lunix.Base.{arith, ℕ, List, Option, none, some, refl}
use lunix.Base.Text.{Text}
use lunix.Machine.{Machine}
use lunix.Machine.Ends.{Ends}
use lunix.Machine.Steady.{Same, Same-refl, IsSteady, steady_rules}
use lunix.Client.{
  result, read_name, refuse, accept, await_ok, new_chat, converse, connect_to_server, set_user,
  read_text, ping_server, Typing, ping, Thread, chat_with, open_socket, handshake, Connector,
}
use lunix.Client.Keeps.{IsKept, chat_steps-keeps}

module _ {S : Type 0} (connector : Connector S) where
  Same-IsKept : (sock : ℕ) (m : Machine S) → IsKept connector sock (Same m)
  Same-IsKept sock m = record {
    shows = λ text n h. record {
      users = h.users;
      runlevel = h.runlevel;
      boot_runlevel = h.boot_runlevel;
    };
    takes = λ line n h. record {
      users = h.users;
      runlevel = h.runlevel;
      boot_runlevel = h.boot_runlevel;
    };
    sends = λ text message n h. record {
      users = h.users;
      runlevel = h.runlevel;
      boot_runlevel = h.boot_runlevel;
    };
    reads =
        λ n h. record { users = h.users; runlevel = h.runlevel; boot_runlevel = h.boot_runlevel };
    closes =
        λ n h. record { users = h.users; runlevel = h.runlevel; boot_runlevel = h.boot_runlevel };
  }

  open_socket-IsSteady :
      (a b c ip : Text) (port : ℕ) → IsSteady (open_socket connector a b c ip port)
  unfolding open_socket
  open_socket-IsSteady a b c ip port = record { at = λ m. ground arith }

  ping-IsSteady : (connection : Option ℕ) → IsSteady (ping connector connection)
  unfolding ping read_text
  ping-IsSteady none = record { at = λ m. ground arith }
  ping-IsSteady (some sock) = record { at = λ m. ground arith }

  pub ping_server-IsSteady : (ip : Text) (port : ℕ) → IsSteady (ping_server connector ip port)
  ping_server-IsSteady ip port =
      unfold ping_server in search (steady_rules, open_socket-IsSteady, ping-IsSteady)

  handshake-IsSteady : (sock : ℕ) → IsSteady (handshake connector sock)
  unfolding handshake set_user await_ok accept refuse read_name read_text
  handshake-IsSteady sock = record { at = λ m. ground arith }

  result-Ends :
      (m : Machine S) (at_ : Typing) (n : Machine S)
      → Same m n
      → Ends (Same m) (result connector at_ n)
  result-Ends m Typing.finished n h = h
  result-Ends m Typing.testing n h = tt
  result-Ends m Typing.typing n h = tt
  result-Ends m Typing.joining n h = tt

  chat_with-IsSteady :
      (sock : ℕ) (schedule : List Thread) (name : Option Text)
      → IsSteady (chat_with connector sock schedule name)
  unfolding chat_with
  chat_with-IsSteady sock schedule none = record { at = Same-refl }
  chat_with-IsSteady sock schedule (some name) = record {
    at = λ m. result-Ends m _ _ (
        chat_steps-keeps connector sock (Same m) (Same-IsKept sock m) schedule
          (new_chat connector name m)
          (record { users = refl; runlevel = refl; boot_runlevel = refl }));
  }

  converse-IsSteady :
      (schedule : List Thread) (connection : Option ℕ)
      → IsSteady (converse connector schedule connection)
  converse-IsSteady schedule none = unfold converse in search steady_rules
  converse-IsSteady schedule (some sock) =
      unfold converse in search (steady_rules, handshake-IsSteady, chat_with-IsSteady)

  pub connect_to_server-IsSteady :
      (schedule : List Thread) (ip : Text) (port : ℕ)
      → IsSteady (connect_to_server connector schedule ip port)
  connect_to_server-IsSteady schedule ip port =
      unfold connect_to_server in search (steady_rules, open_socket-IsSteady, converse-IsSteady)
