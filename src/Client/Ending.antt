-- ===== src/Client/Ending.antt =====
-- How a chat ends.
use lunix.Base.{ap, ◌-◌, ℕ, suc, ◌≡◌, ◌≤◌, refl, ◌∙◌, false, List, [], ◌∷◌, arith}
use lunix.Client.{
  Connector, Typing, Receiving, Thread, typist, receiver, Chat, typist_step, receiver_step,
  chat_step, chat_steps,
}

-- The turns of the thread that types.
abbrev pub typist_turns : List Thread → ℕ
typist_turns [] = 0
typist_turns (typist ∷ ws) = suc (typist_turns ws)
typist_turns (receiver ∷ ws) = typist_turns ws

-- How many turns the thread that types needs once the receiver has ended.
abbrev pub turns_left : Typing → ℕ
turns_left Typing.typing = 3
turns_left Typing.testing = 2
turns_left Typing.joining = 1
turns_left Typing.finished = 0

module _ {S : Type 0} (connector : Connector S) where
  -- The connection is gone: the receiver has ended and `running` is false.
  pub record IsOver (c : Chat S) : Type 0 where
    pub stopped : c.running ≡ false
    pub ended : c.receiving_at ≡ Receiving.ended

  typist_step-IsOver :
      (sock : ℕ) (at_ : Typing) (c : Chat S) → IsOver c → IsOver (typist_step connector sock at_ c)
  unfolding typist_step
  typist_step-IsOver sock Typing.testing c h = ground arith
  typist_step-IsOver sock Typing.typing c h = ground arith
  typist_step-IsOver sock Typing.joining c h = ground arith
  typist_step-IsOver sock Typing.finished c h = h

  typist_step-turns_left :
      (sock : ℕ) (at_ : Typing) (c : Chat S)
      → IsOver c
      → c.typing_at ≡ at_
      → turns_left (typist_step connector sock at_ c).typing_at ≤ turns_left at_ - 1
  unfolding typist_step
  typist_step-turns_left sock Typing.testing c h e = ground arith
  typist_step-turns_left sock Typing.typing c h e = ground arith
  typist_step-turns_left sock Typing.joining c h e = ground arith
  typist_step-turns_left sock Typing.finished c h e = ground (arith, e)

  receiver_step-ended :
      (sock : ℕ) (at_ : Receiving) (c : Chat S)
      → at_ ≡ Receiving.ended
      → receiver_step connector sock at_ c ≡ c
  unfolding receiver_step
  receiver_step-ended sock Receiving.testing c e = cc
  receiver_step-ended sock Receiving.receiving c e = cc
  receiver_step-ended sock Receiving.ended c e = refl

  none_left : (at_ : Typing) → turns_left at_ ≤ 0 → at_ ≡ Typing.finished
  none_left Typing.testing h = absurd (omega arith)
  none_left Typing.typing h = absurd (omega arith)
  none_left Typing.joining h = absurd (omega arith)
  none_left Typing.finished h = refl

  chat_steps-IsOver :
      (sock : ℕ) (ws : List Thread) (c : Chat S)
      → IsOver c
      → turns_left c.typing_at ≤ typist_turns ws
      → (chat_steps connector sock ws c).typing_at ≡ Typing.finished
  unfolding chat_steps chat_step
  chat_steps-IsOver sock [] c h enough = none_left c.typing_at enough
  chat_steps-IsOver sock (typist ∷ ws) c h enough =
      chat_steps-IsOver sock ws _ (typist_step-IsOver sock c.typing_at c h)
        (omega (arith, typist_step-turns_left sock c.typing_at c h refl))
  chat_steps-IsOver sock (receiver ∷ ws) c h enough =
      ap (λ d. (chat_steps connector sock ws d).typing_at)
        (receiver_step-ended sock c.receiving_at c h.ended)
      ∙ chat_steps-IsOver sock ws c h enough

  turns_left-le : (at_ : Typing) → turns_left at_ ≤ 3
  turns_left-le Typing.testing = omega arith
  turns_left-le Typing.typing = omega arith
  turns_left-le Typing.joining = omega arith
  turns_left-le Typing.finished = omega arith

  receiver_step-closed :
      (sock : ℕ) (c : Chat S) (s : S)
      → c.receiving_at ≡ Receiving.receiving
      → connector.read c.machine.files sock ≡ ([], s)
      → IsOver (receiver_step connector sock c.receiving_at c)
  unfolding receiver_step
  receiver_step-closed sock c s at_ closed = record {
    stopped = ground (arith, at_, closed);
    ended = ground (arith, at_, closed);
  }

  -- When recv finds the connection closed, wherever the typing thread stands, three more turns of
  -- that thread end the chat, whatever is typed and however the two threads take turns.
  pub chat_steps-closed :
      (sock : ℕ) (ws : List Thread) (c : Chat S) (s : S)
      → c.receiving_at ≡ Receiving.receiving
      → connector.read c.machine.files sock ≡ ([], s)
      → 3 ≤ typist_turns ws
      → (chat_steps connector sock (receiver ∷ ws) c).typing_at ≡ Typing.finished
  unfolding chat_steps chat_step
  chat_steps-closed sock ws c s at_ closed enough =
      chat_steps-IsOver sock ws _ (receiver_step-closed sock c s at_ closed)
        (omega (arith, turns_left-le (receiver_step connector sock c.receiving_at c).typing_at))
