-- ===== src/Client/Keeps.antt =====
-- What every turn of a chat keeps: a predicate that is closed under the things that a chat does.
use lunix.Base.Text.{is_empty}
use lunix.Client.{typist, receiver, invalid_command}
use lunix.Base.{refl, [], true, take, inl, ◌∷◌, inr, ◌⊎◌, List, if_intro, ℕ, ◌≡◌}
use lunix.Machine.{Machine}
use lunix.Client.{
  close_socket, put_files, send_to, newline, Thread, put_input, text_eq, join_receiver, getline,
  receive, Typing, put_out, codes, chat_step, Chat, Receiving, Text, typist_step, take_line,
  chat_steps, receiver_step, Connector,
}

-- A message that the chat loop may send.
abbrev pub IsChatMessage : Text → Type 0
IsChatMessage text = (text ≡ codes "DISS") ⊎ (text_eq (take 5 text) (codes "CHAT ") ≡ true)

-- What a chat on a socket does to the machine: it shows text, takes input, sends chat messages,
-- reads and closes.
pub record IsKept {S : Type 0} (connector : Connector S) (sock : ℕ) (P : Machine S → Type 0)
    : Type 0 where
  pub shows : (text : Text) (m : Machine S) → P m → P (put_out text m)
  pub takes : (line : Text) (m : Machine S) → P m → P (put_input (getline newline line m.input).1 m)
  pub sends :
      (text : Text) → IsChatMessage text → (m : Machine S) → P m → P (send_to connector sock text m)
  pub reads : (m : Machine S) → P m → P (put_files (connector.read m.files sock).1 m)
  pub closes : (m : Machine S) → P m → P (close_socket connector sock m)

module _ {S : Type 0} (connector : Connector S) (sock : ℕ) (P : Machine S → Type 0)
    (kept : IsKept connector sock P) where
  take_line-keeps : (line : Text) (m : Machine S) → P m → P (take_line connector sock line m)
  unfolding take_line
  take_line-keeps line m h =
      if_intro P _ _ _ (λ chat. kept.sends line (inr chat) m h)
        (λ other.
          if_intro P (is_empty line) m (put_out invalid_command m) (λ empty. h)
            (λ text. kept.shows invalid_command m h))

  join_receiver-keeps :
      (at_ : Receiving) (c : Chat S) → P c.machine → P (join_receiver connector sock at_ c).machine
  join_receiver-keeps Receiving.testing c h = h
  join_receiver-keeps Receiving.receiving c h = h
  join_receiver-keeps Receiving.ended c h = kept.shows _ _ (kept.closes c.machine h)

  typist_step-keeps :
      (at_ : Typing) (c : Chat S) → P c.machine → P (typist_step connector sock at_ c).machine
  unfolding typist_step
  typist_step-keeps Typing.testing c h =
      if_intro (λ (d : Chat S). P d.machine) c.running _ _ (λ on. kept.shows _ c.machine h)
        (λ off. h)
  typist_step-keeps Typing.typing c h =
      let line = (getline newline c.line c.machine.input).0 in
      let input' = (getline newline c.line c.machine.input).1 in
      if_intro (λ (d : Chat S). P d.machine) (text_eq line (codes "/exit")) _ _
        (λ quit. kept.sends (codes "DISS") (inl refl) _ (kept.takes c.line c.machine h))
        (λ other. take_line-keeps line (put_input input' c.machine) (kept.takes c.line c.machine h))
  typist_step-keeps Typing.joining c h = join_receiver-keeps c.receiving_at c h
  typist_step-keeps Typing.finished c h = h

  receiver_step-keeps :
      (at_ : Receiving) (c : Chat S) → P c.machine → P (receiver_step connector sock at_ c).machine
  unfolding receiver_step
  receiver_step-keeps Receiving.testing c h =
      if_intro (λ (d : Chat S). P d.machine) c.running _ _ (λ on. h) (λ off. h)
  receiver_step-keeps Receiving.receiving c h = received (connector.read c.machine.files sock).0
    where
      received :
          (bytes : Text)
          → P (receive connector (bytes, (connector.read c.machine.files sock).1) c).machine
      received [] = kept.shows _ _ (kept.reads c.machine h)
      received (b ∷ bytes) = kept.shows _ _ (kept.reads c.machine h)
  receiver_step-keeps Receiving.ended c h = h

  -- Under every schedule of the two threads.
  pub chat_steps-keeps :
      (ws : List Thread) (c : Chat S) → P c.machine → P (chat_steps connector sock ws c).machine
  unfolding chat_steps chat_step
  chat_steps-keeps [] c h = h
  chat_steps-keeps (typist ∷ ws) c h = chat_steps-keeps ws _ (typist_step-keeps c.typing_at c h)
  chat_steps-keeps (receiver ∷ ws) c h =
      chat_steps-keeps ws _ (receiver_step-keeps c.receiving_at c h)
