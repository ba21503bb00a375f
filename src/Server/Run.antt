-- ===== src/Server/Run.antt =====
-- Server::run and getPrivateIP: the socket that listens, and the loop that accepts.
pub mod Bytes
pub mod Address
pub mod Closing
use lunix.Base.{
  ℕ, zero, suc, ◌+◌, ◌-◌, ◌*◌, ltb, leb, ◌==◌, ◌&&◌, ◌||◌, if◌then◌else◌, Bool, true, false, List,
  [], ◌∷◌, ◌++◌, Option, none, some, take, drop,
}
use lunix.Base.Text.{Text, codes, join, endl, starts_with, is_empty}
use lunix.Base.Decimal.{decimal}

abbrev is_digit : ℕ → Bool
is_digit c = leb b'0' c && leb c b'9'

-- The value of the digits that a text begins with, behind those already read.
abbrev digits : ℕ → Text → ℕ
digits n [] = n
digits n (c ∷ s) = if is_digit c then digits (n * 10 + (c - b'0')) s else n

-- std::stoi on the bytes behind a dot of an address, where no space and no sign stand: without a
-- digit it throws std::invalid_argument.
abbrev pub stoi : Text → Option ℕ
stoi [] = none
stoi (c ∷ s) = if is_digit c then some (digits 0 (c ∷ s)) else none

abbrev in_range : Option ℕ → Option Bool
in_range none = none
in_range (some n) = some (leb 16 n && leb n 31)

-- The test on the text of an address: none is an exception.
unfoldable pub is_private : Text → Option Bool
is_private ip =
    if starts_with ip (codes "192.168.") || starts_with ip (codes "10.")
    then some true
    else if starts_with ip (codes "172.")
    then in_range (stoi (take 2 (drop 4 ip)))
    else some false

-- The first private address, or the empty text.
unfoldable pub first_private : List Text → Option Text
first_private [] = some []
first_private (ip ∷ ips) = elim (is_private ip) [
  | none ↦ none
  | some true ↦ some ip
  | some false ↦ first_private ips
]

-- getPrivateIP on the texts of the IPv4 addresses that getifaddrs gives.
unfoldable pub get_private_ip : Option (List Text) → Option Text
get_private_ip none = some []
get_private_ip (some ips) = first_private ips

-- What select reports.
pub data Activity : Type 0 where
  failed timeout ready : Activity

-- What run asks of the system, over the state `N` of the network. A descriptor of none is -1.
pub record Listener (N : Type 0) : Type 0 where
  pub socket : N → Option ℕ × N
  pub setsockopt : N → Option ℕ → Bool × N
  pub getifaddrs : N → Option (List Text)
  pub bind : N → Option ℕ → Text → ℕ → Bool × N
  pub listen : N → Option ℕ → Bool × N
  pub select : N → Option ℕ → Activity × N
  pub accept : N → Option ℕ → Option ℕ × N
  pub shutdown : N → Option ℕ → N
  pub close : N → Option ℕ → N

-- How run ends: it returns, an exception leaves its thread, or it is still running. With it the
-- sockets of the threads that it has started, and what it has shown.
pub data RunEnd (N : Type 0) : Type 0 where
  returned : N → List ℕ → Text → RunEnd N
  thrown : N → RunEnd N
  running : RunEnd N

abbrev pub server_port : ℕ
server_port = 6942

module _ {N : Type 0} (listener : Listener N) where
  abbrev pub close_listener : Option ℕ → N → N
  close_listener fd n = listener.close (listener.shutdown n fd) fd

  abbrev pub accepted : Option ℕ → List ℕ → List ℕ
  accepted none clients = clients
  accepted (some client) clients = clients ++ client ∷ []

  abbrev pub accept_error : Option ℕ → Text
  accept_error none = codes "Error accepting connection\n"
  accept_error (some client) = []

  -- The loop, with what each test of `running` finds; behind them it is still running.
  unfoldable pub accept_loop : Option ℕ → List Bool → List ℕ → Text → N → RunEnd N
  accept_loop fd [] clients out n = running
  accept_loop fd (false ∷ tests) clients out n = returned (close_listener fd n) clients out
  accept_loop fd (true ∷ tests) clients out n =
      let (activity, n') = listener.select n fd in
      let (client, n'') = listener.accept n' fd in
      elim activity [
        | failed ↦ returned (close_listener fd n') clients (out ++ codes "Select error\n")
        | timeout ↦ accept_loop fd tests clients out n'
        | ready ↦ accept_loop fd tests (accepted client clients) (out ++ accept_error client) n''
      ]

  abbrev give_up : Option ℕ → Text → N → RunEnd N
  give_up fd text n = returned (listener.close n fd) [] text

  abbrev pub greeting : Text → Text
  greeting ip = join (
      codes "\n\nLunix Inter-terminal Server Protocol"
      ∷ endl
      ∷ codes "Server running on "
      ∷ ip
      ∷ codes ":"
      ∷ decimal server_port
      ∷ endl
      ∷ codes
          "NOTE: ALWAYS type 'server stop' to stop the server! Otherwise ports or sockets can remain open and the server may have trouble starting again."
      ∷ endl
      ∷ [])

  -- From the private address on.
  unfoldable pub listen_on : Option ℕ → List Bool → Option Text → N → RunEnd N
  listen_on fd tests none n = thrown n
  listen_on fd tests (some ip) n =
      let (bound, n') = listener.bind n fd ip server_port in
      let (listening, n'') = listener.listen n' fd in
      if is_empty ip
      then give_up fd (codes "Error retrieving private IP address\n") n
      else if bound
      then (if listening
          then accept_loop fd tests [] (greeting ip) n''
          else give_up fd (codes "Error listening on socket\n") n'')
      else give_up fd (codes "Error binding socket\n") n'

  -- From setsockopt on, behind which the result of socket is looked at.
  unfoldable pub configure : Option ℕ → List Bool → N → RunEnd N
  configure fd tests n =
      let (set_, n') = listener.setsockopt n fd in
      if set_
      then elim fd [
        | none ↦ returned n' [] (codes "Error creating socket\n")
        | some socket ↦ listen_on (some socket) tests (get_private_ip (listener.getifaddrs n')) n'
      ]
      else give_up fd (codes "Error setting socket options\n") n'

  unfoldable pub run : List Bool → N → RunEnd N
  run tests n = let (fd, n') = listener.socket n in configure fd tests n'
