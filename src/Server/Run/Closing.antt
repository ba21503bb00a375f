-- ===== src/Server/Run/Closing.antt =====
-- Server::run to its end: the listening socket.
use lunix.Base.{
  if_intro, All, ℕ, ◌++◌, ◌∷◌, [], Bool, true, false, List, Option, none, some, ◌≡◌, refl,
}
use lunix.Base.Text.{Text, codes, is_empty}
use lunix.Server.Run.{
  Listener, RunEnd, returned, accept_loop, listen_on, configure, run, Activity, failed, timeout,
  ready, close_listener, accept_error, accepted, get_private_ip, greeting, server_port,
  first_private, is_private,
}
use lunix.Server.Run.Address.{IsDotted, IsDotted-decided}

module _ {N : Type 0} (listener : Listener N) where
  -- A run that has returned, behind the close of the socket.
  abbrev pub Closed : Option ℕ → RunEnd N → Type 0
  Closed fd end =
      (n : N) × (clients : List ℕ) × (out : Text) × (end
        ≡ returned (listener.close n fd) clients out)

  -- One round of the loop.
  by_activity :
      (fd : Option ℕ) (tests : List Bool) (clients : List ℕ) (out : Text) (a : Activity) (n : N)
      → ((clients : List ℕ) (out : Text) (n : N)
          → Closed fd (accept_loop listener fd tests clients out n))
      → Closed fd (elim a [
        | failed ↦ returned (close_listener listener fd n) clients (out ++ codes "Select error\n")
        | timeout ↦ accept_loop listener fd tests clients out n
        | ready ↦
            accept_loop listener fd tests
              (accepted listener (listener.accept n fd).0 clients)
              (out ++ accept_error listener (listener.accept n fd).0)
              (listener.accept n fd).1
      ])
  by_activity fd tests clients out failed n later = (listener.shutdown n fd, clients, _, refl)
  by_activity fd tests clients out timeout n later = later clients out n
  by_activity fd tests clients out ready n later = later _ _ _

  accept_loop-Closed :
      (fd : Option ℕ) (tests rest : List Bool) (clients : List ℕ) (out : Text) (n : N)
      → Closed fd (accept_loop listener fd (tests ++ false ∷ rest) clients out n)
  unfolding accept_loop
  accept_loop-Closed fd [] rest clients out n = (listener.shutdown n fd, clients, out, refl)
  accept_loop-Closed fd (false ∷ tests) rest clients out n =
      (listener.shutdown n fd, clients, out, refl)
  accept_loop-Closed fd (true ∷ tests) rest clients out n =
      by_activity fd (tests ++ false ∷ rest) clients out (listener.select n fd).0
        (listener.select n fd).1 (λ clients out n. accept_loop-Closed fd tests rest clients out n)

  taken-some :
      (ip : Text) (taken : Bool) (ips : List Text)
      → is_private ip ≡ some taken
      → ((ip' : Text) × (first_private ips ≡ some ip'))
      → (ip' : Text) × (first_private (ip ∷ ips) ≡ some ip')
  unfolding first_private is_private
  taken-some ip true ips e h = rw e (ip, refl)
  taken-some ip false ips e h = rw e h

  first_private-some :
      (ips : List Text) → All IsDotted ips → (ip : Text) × (first_private ips ≡ some ip)
  unfolding first_private
  first_private-some [] h = ([], refl)
  first_private-some (ip ∷ ips) h =
      let (taken, e) = IsDotted-decided ip h.0 in
      taken-some ip taken ips e (first_private-some ips h.1)

  get_private_ip-some :
      (answer : Option (List Text))
      → ((ips : List Text) → answer ≡ some ips → All IsDotted ips)
      → (ip : Text) × (get_private_ip answer ≡ some ip)
  unfolding get_private_ip
  get_private_ip-some none h = ([], refl)
  get_private_ip-some (some ips) h = first_private-some ips (h ips refl)

  listen_on-Closed :
      (fd : Option ℕ) (tests rest : List Bool) (ip : Text) (n : N)
      → Closed fd (listen_on listener fd (tests ++ false ∷ rest) (some ip) n)
  unfolding listen_on
  listen_on-Closed fd tests rest ip n =
      if_intro (Closed fd) (is_empty ip) _ _ (λ e. (n, [], _, refl))
        (λ e.
          if_intro (Closed fd) (listener.bind n fd ip server_port).0 _ _
            (λ f.
              if_intro (Closed fd) (listener.listen (listener.bind n fd ip server_port).1 fd).0 _ _
                (λ g. accept_loop-Closed fd tests rest [] (greeting listener ip) _)
                (λ g. (_, [], _, refl)))
            (λ f. (_, [], _, refl)))

  configure-Closed :
      (socket : ℕ) (tests rest : List Bool) (n : N)
      → ((n : N) (ips : List Text) → listener.getifaddrs n ≡ some ips → All IsDotted ips)
      → Closed (some socket) (configure listener (some socket) (tests ++ false ∷ rest) n)
  unfolding configure
  configure-Closed socket tests rest n decided =
      let (set_, n') = listener.setsockopt n (some socket) in
      let (ip, e) = get_private_ip-some (listener.getifaddrs n') (decided n') in
      if_intro (Closed (some socket)) set_ _ _
        (λ f. rw e (listen_on-Closed (some socket) tests rest ip n')) (λ f. (n', [], _, refl))

  -- Where the system has made a socket and every address that it gives is a dotted one, a run that finds `running` false once, after any tests that find it
  -- true, returns, on every path behind the close of that socket; no exception leaves its thread.
  pub run-closes :
      (socket : ℕ) (tests rest : List Bool) (n : N)
      → (listener.socket n).0 ≡ some socket
      → ((n : N) (ips : List Text) → listener.getifaddrs n ≡ some ips → All IsDotted ips)
      → Closed (some socket) (run listener (tests ++ false ∷ rest) n)
  unfolding run
  run-closes socket tests rest n made decided =
      rw made (configure-Closed socket tests rest (listener.socket n).1 decided)
