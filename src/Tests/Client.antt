-- ===== src/Tests/Client.antt =====
-- Runs of the client, and instances of its theorems.
use lunix.Base.{ℕ, false, ◌≡◌, refl, ◌++◌, ◌∷◌, [], List, true, some, arith}
use lunix.Base.Text.{Text, codes}
use lunix.Stream.{stream, read_word, getline, ignore_line}
use lunix.Machine.{Machine}
use lunix.Machine.Ends.{Returns}
use lunix.Security.{no_user}
use lunix.Client.{
  take_line, receiver_step, typist_step, chat_step, Connector, Chat, Thread, Typing, Receiving,
  handshake, chat_steps, new_chat,
}
use lunix.Server.{Server, new_client, turn, handle_command, user_set, respond, send_all}
use lunix.Lisp.{Log, answers, Delivered, handshake-answers}
use lunix.Client.Protocol.{Conforms, chat_steps-Conforms}
use lunix.Client.Session.{rounds, chat_steps-sends}
use lunix.Client.Ending.{chat_steps-closed}
use lunix.Client.Greeting.{handshake-cases}

-- A peer with its answers in order, and what it was sent.
record Peer : Type 0 where
  answers : List Text
  sent : List Text

abbrev next_answer : List Text → Text × List Text
next_answer [] = ([], [])
next_answer (a ∷ rest) = (a, rest)

abbrev peer_connector : Connector Peer
peer_connector = record {
  socket = λ s. some (3, s);
  inet_pton = λ ip. true;
  connect = λ s sock ip port. (true, s);
  send = λ s sock text. record s { sent = s.sent ++ text ∷ [] };
  read = λ s sock. let (a, rest) = next_answer s.answers in (a, record s { answers = rest });
  close = λ s sock. s;
}

abbrev peer_machine : List Text → Text → Machine Peer
peer_machine answers typed = record {
  console = record {
    files = record { answers = answers; sent = [] };
    input = stream typed;
    users = no_user;
    out = [];
    cout_failed = false;
    echo = true;
  };
  oops_count = 0;
  restart_after_panic = false;
  rootfs_absolute_path = [];
  boot_runlevel = 3;
  runlevel = 3;
}

-- The chat of ann, who says hi, mistypes and leaves.
abbrev ann_chat : Chat Peer
ann_chat =
    new_chat peer_connector (codes "ann") (peer_machine [] (codes "ann\nCHAT hi\nhi\n/exit\n"))

abbrev ann_schedule : List Thread
ann_schedule =
    Thread.typist ∷ Thread.typist ∷ Thread.typist ∷ Thread.typist ∷ Thread.receiver ∷ Thread.typist
    ∷ Thread.typist ∷ Thread.receiver ∷ Thread.typist ∷ []

ann_chat_sent :
    (chat_steps peer_connector 3 ann_schedule ann_chat).machine.files.sent
    ≡ codes "CHAT hi" ∷ codes "DISS" ∷ []
unfolding chat_steps chat_step typist_step receiver_step take_line getline ignore_line
ann_chat_sent = refl

chat_steps-Conforms_example :
    Conforms peer_connector 3 ann_chat.machine.files
      (chat_steps peer_connector 3 ann_schedule ann_chat).machine.files
chat_steps-Conforms_example = chat_steps-Conforms peer_connector 3 ann_schedule ann_chat

-- The receiver of that chat waits in recv, and the peer has nothing more to say.
abbrev waiting_chat : Chat Peer
waiting_chat = record ann_chat { typing_at = Typing.typing; receiving_at = Receiving.receiving }

chat_steps-closed_example :
    (chat_steps peer_connector 3
      (Thread.receiver ∷ Thread.typist ∷ Thread.typist ∷ Thread.typist ∷ [])
      waiting_chat).typing_at
    ≡ Typing.finished
chat_steps-closed_example =
    chat_steps-closed peer_connector 3 (Thread.typist ∷ Thread.typist ∷ Thread.typist ∷ [])
      waiting_chat waiting_chat.machine.files refl refl (omega arith)

-- The server answers, and USER_OK comes with the second read behind the name.
abbrev greeted : Machine Peer
greeted =
    peer_machine (codes "100" ∷ codes "SYSTEM: ann has joined the chat." ∷ codes "USER_OK" ∷ [])
      (codes "ann\n")

handshake_runs : Returns (λ name n. name ≡ some (codes "ann")) (handshake peer_connector 3 greeted)
unfolding read_word
handshake_runs = handshake-cases peer_connector 3 greeted

-- The server of that chat, with the socket 4 in its list once, or twice behind a client that has gone.
abbrev listing : List ℕ → Server Log
listing sockets = record {
  running = true;
  client_sockets = sockets;
  client_usernames = [];
  network = [];
  out = [];
}

answers_once :
    answers 4 (codes "USER_SET ann") new_client (listing (4 ∷ []))
    ≡ codes "SYSTEM: ann has joined the chat." ∷ codes "USER_OK" ∷ []
unfolding turn handle_command user_set respond send_all
answers_once = refl

answers_twice :
    answers 4 (codes "USER_SET ann") new_client (listing (4 ∷ 4 ∷ []))
    ≡ codes "SYSTEM: ann has joined the chat."
      ∷ codes "SYSTEM: ann has joined the chat."
      ∷ codes "USER_OK"
      ∷ []
unfolding turn handle_command user_set respond send_all
answers_twice = refl

handshake-answers_example :
    Returns (λ name n. name ≡ some (codes "ann")) (handshake peer_connector 3 greeted)
unfolding read_word turn handle_command respond
handshake-answers_example =
    handshake-answers peer_connector 3 greeted 4 new_client (listing (4 ∷ [])) (listing (4 ∷ []))
      (omega arith) refl (Delivered.apart answers_once)

-- Ann says hi, mistypes and leaves, and what she types then is for the shell.
chat_steps-sends_example :
    let d = chat_steps peer_connector 3 (rounds (codes "CHAT hi" ∷ codes "hi" ∷ [])) ann_chat in
    (d.machine.files ≡ record { answers = []; sent = codes "CHAT hi" ∷ codes "DISS" ∷ [] })
    × (d.machine.input ≡ stream [])
    × (d.running ≡ false)
    × (d.typing_at ≡ Typing.joining)
unfolding ignore_line
chat_steps-sends_example =
    chat_steps-sends peer_connector 3 (codes "CHAT hi" ∷ codes "hi" ∷ []) [] ann_chat
      ((omega arith, refl), ((omega arith, refl), tt)) refl refl refl
