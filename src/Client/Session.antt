-- ===== src/Client/Session.antt =====
-- What a chat sends for what is typed.
use mathlib.Core.List.{append_assoc}
use lunix.Base.{
  sym, subst, ap, ℕ, ◌≡◌, refl, ◌∙◌, if◌then◌else◌, true, false, List, [], ◌∷◌, ◌++◌, All, take,
  arith,
}
use lunix.Base.Text.{Text, codes, text_eq}
use lunix.Stream.{Stream, stream, newline, getline}
use lunix.Stream.Lines.{Lacks, unlines, getline-line}
use lunix.Machine.{put_input, Machine, put_out}
use lunix.Client.{
  send_to, Connector, Chat, Thread, typist, Typing, typist_step, chat_step, chat_steps, take_line,
}

-- A line that does not end the chat.
abbrev pub IsLine : Text → Type 0
IsLine l = Lacks newline l × (text_eq l (codes "/exit") ≡ false)

-- The turns of the typing thread for some lines and the one that ends the chat: a test and a read
-- for each.
abbrev pub rounds : List Text → List Thread
rounds [] = typist ∷ typist ∷ []
rounds (l ∷ ls) = typist ∷ typist ∷ rounds ls

module _ {S : Type 0} (connector : Connector S) (sock : ℕ) where
  abbrev pub send_line : Text → S → S
  send_line l s = if text_eq (take 5 l) (codes "CHAT ") then connector.send s sock l else s

  abbrev pub send_lines : List Text → S → S
  send_lines [] s = s
  send_lines (l ∷ ls) s = send_lines ls (send_line l s)

  -- The chat at the test of its loop, with these files and this input.
  record Typed (c : Chat S) (s : S) (input : Stream) : Type 0 where
    running : c.running ≡ true
    typing_at : c.typing_at ≡ Typing.testing
    files : c.machine.files ≡ s
    input_ : c.machine.input ≡ input

  take_line-files :
      (l : Text) (m : Machine S) → (take_line connector sock l m).files ≡ send_line l m.files
  unfolding take_line
  take_line-files l m = ground arith

  take_line-input : (l : Text) (m : Machine S) → (take_line connector sock l m).input ≡ m.input
  unfolding take_line
  take_line-input l m = ground arith

  -- The chat in getline.
  abbrev prompted : Chat S → Chat S
  prompted c = record c { machine = put_out (codes "> ") c.machine; typing_at = Typing.typing }

  test_step :
      (at_ : Typing) (c : Chat S)
      → at_ ≡ Typing.testing
      → c.running ≡ true
      → typist_step connector sock at_ c ≡ prompted c
  unfolding typist_step
  test_step Typing.testing c e on = rw on refl
  test_step Typing.typing c e on = cc e
  test_step Typing.joining c e on = cc e
  test_step Typing.finished c e on = cc e

  abbrev with_line : Text → Stream → Chat S → Chat S
  with_line l input' c = record c {
    machine = take_line connector sock l (put_input input' c.machine);
    line = l;
    typing_at = Typing.testing;
  }

  read_step :
      (l : Text) (input' : Stream) (c : Chat S)
      → getline newline c.line c.machine.input ≡ (l, input')
      → text_eq l (codes "/exit") ≡ false
      → typist_step connector sock Typing.typing c ≡ with_line l input' c
  unfolding typist_step
  read_step l input' c e other = rw (e, other) refl

  exit_step :
      (input' : Stream) (c : Chat S)
      → getline newline c.line c.machine.input ≡ (codes "/exit", input')
      → typist_step connector sock Typing.typing c ≡ record c {
        machine = send_to connector sock (codes "DISS") (put_input input' c.machine);
        running = false;
        line = codes "/exit";
        typing_at = Typing.joining;
      }
  unfolding typist_step
  exit_step input' c e = rw e refl

  -- Two turns: what the second reads is what is typed.
  two_steps :
      (s : S) (input : Stream) (c : Chat S)
      → Typed c s input
      → chat_step connector sock typist (chat_step connector sock typist c)
        ≡ typist_step connector sock Typing.typing (prompted c)
  unfolding chat_step
  two_steps s input c typed =
      ap (λ (d : Chat S). typist_step connector sock d.typing_at d)
        (test_step c.typing_at c typed.typing_at typed.running)

  round :
      (l rest : Text) (c : Chat S) (s : S)
      → IsLine l
      → Typed c s (stream (l ++ newline ∷ rest))
      → Typed
          (chat_step connector sock typist (chat_step connector sock typist c))
          (send_line l s)
          (stream rest)
  round l rest c s line typed =
      let read = ap (getline newline c.line) typed.input_ ∙ getline-line c.line l rest line.0 in
      subst (λ d. Typed d (send_line l s) (stream rest))
        (sym (two_steps s _ c typed ∙ read_step l (stream rest) (prompted c) read line.1))
        (record {
          running = typed.running;
          typing_at = refl;
          files = take_line-files l _ ∙ ap (send_line l) typed.files;
          input_ = take_line-input l _;
        })

  last_round :
      (rest : Text) (c : Chat S) (s : S)
      → Typed c s (stream (codes "/exit" ++ newline ∷ rest))
      → let d = chat_step connector sock typist (chat_step connector sock typist c) in
        (d.machine.files ≡ connector.send s sock (codes "DISS"))
        × (d.machine.input ≡ stream rest)
        × (d.running ≡ false)
        × (d.typing_at ≡ Typing.joining)
  last_round rest c s typed =
      let read =
        ap (getline newline c.line) typed.input_
        ∙ getline-line c.line (codes "/exit") rest (ground arith) in
      subst
        (λ (d : Chat S).
          (d.machine.files ≡ connector.send s sock (codes "DISS"))
          × (d.machine.input ≡ stream rest)
          × (d.running ≡ false)
          × (d.typing_at ≡ Typing.joining))
        (sym (two_steps s _ c typed ∙ exit_step (stream rest) (prompted c) read))
        (ap (λ s. connector.send s sock (codes "DISS")) typed.files, refl, refl, refl)

  rounds-Typed :
      (ls : List Text) (rest : Text) (c : Chat S) (s : S)
      → All IsLine ls
      → Typed c s (stream (unlines ls ++ (codes "/exit" ++ newline ∷ rest)))
      → let d = chat_steps connector sock (rounds ls) c in
        (d.machine.files ≡ connector.send (send_lines ls s) sock (codes "DISS"))
        × (d.machine.input ≡ stream rest)
        × (d.running ≡ false)
        × (d.typing_at ≡ Typing.joining)
  unfolding chat_steps
  rounds-Typed [] rest c s h typed = last_round rest c s typed
  rounds-Typed (l ∷ ls) rest c s h typed =
      let tail = unlines ls ++ (codes "/exit" ++ newline ∷ rest) in
      rounds-Typed ls rest _ (send_line l s) h.1 (
        round l tail c s h.0
          (subst (λ text. Typed c s (stream text)) (append_assoc l (newline ∷ unlines ls) _) typed))

  -- A chat whose loop has just started sends, for lines without /exit and then /exit, exactly the
  -- lines that begin with "CHAT ", as they are and in their order, and then DISS; it has read no
  -- further than /exit, and it stands before the join with `running` reset. The receiver does not
  -- move in between.
  pub chat_steps-sends :
      (ls : List Text) (rest : Text) (c : Chat S)
      → All IsLine ls
      → c.running ≡ true
      → c.typing_at ≡ Typing.testing
      → c.machine.input ≡ stream (unlines ls ++ (codes "/exit" ++ newline ∷ rest))
      → let d = chat_steps connector sock (rounds ls) c in
        (d.machine.files ≡ connector.send (send_lines ls c.machine.files) sock (codes "DISS"))
        × (d.machine.input ≡ stream rest)
        × (d.running ≡ false)
        × (d.typing_at ≡ Typing.joining)
  chat_steps-sends ls rest c h on at_ typed =
      rounds-Typed ls rest c c.machine.files h
        (record { running = on; typing_at = at_; files = refl; input_ = typed })
