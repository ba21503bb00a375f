-- ===== src/Client/Greeting.antt =====
-- The handshake of connectToServer with what the server sends.
use lunix.Base.{ℕ, ◌≡◌, Bool, ◌&&◌, ◌||◌, [], ◌++◌, none, some, arith, if◌then◌else◌}
use lunix.Base.Text.{Text, codes, text_eq, finds, c_string}
use lunix.Stream.{read_word}
use lunix.Machine.{Machine}
use lunix.Machine.Ends.{Returns}
use lunix.Client.{Connector, read_text, handshake, set_user, await_ok, accept, refuse, read_name}

module _ {S : Type 0} (connector : Connector S) (sock : ℕ) where
  -- What the three reads of the handshake give, each behind what was sent before it.
  abbrev pub first_read : Machine S → Text × S
  first_read m = connector.read (connector.send m.files sock (codes "CONN_REQ")) sock

  abbrev pub typed_name : Machine S → Text
  typed_name m = (read_word [] m.input).0

  abbrev pub second_read : Machine S → Text × S
  second_read m =
      connector.read (connector.send (first_read m).1 sock (codes "USER_SET " ++ typed_name m)) sock

  abbrev pub third_read : Machine S → Text × S
  third_read m = connector.read (second_read m).1 sock

  abbrev pub says_ok : Text × S → Bool
  says_ok r = finds (c_string r.0) (codes "USER_OK")

  -- The handshake always returns. It gives the name that was typed exactly when the first read is
  -- "100" and USER_OK stands in the second or in the third, and no name otherwise.
  pub handshake-cases :
      (m : Machine S)
      → Returns
          (λ name n. name ≡ (
            if text_eq (c_string (first_read m).0) (codes "100")
              && (says_ok (second_read m) || says_ok (third_read m))
            then some (typed_name m)
            else none))
          (handshake connector sock m)
  unfolding handshake set_user await_ok accept refuse read_name read_text
  handshake-cases m = ground arith
