-- ===== src/Client/Protocol.antt =====
-- What a chat sends.
use lunix.Base.{ℕ, List}
use lunix.Client.{Text, Connector, Thread, Chat, chat_steps}
use lunix.Client.Keeps.{IsChatMessage, IsKept, chat_steps-keeps}

module _ {S : Type 0} (connector : Connector S) (sock : ℕ) where
  -- The system after messages of the chat, reads and closes of its socket, and nothing else.
  pub data Conforms (s : S) : S → Type 0 where
    start : Conforms s s
    sends :
        (t : S) (text : Text)
        → IsChatMessage text
        → Conforms s t
        → Conforms s (connector.send t sock text)
    reads : (t : S) → Conforms s t → Conforms s (connector.read t sock).1
    closes : (t : S) → Conforms s t → Conforms s (connector.close t sock)

  Conforms-IsKept : (s : S) → IsKept connector sock (λ m. Conforms s m.files)
  Conforms-IsKept s = record {
    shows = λ text m h. h;
    takes = λ line m h. h;
    sends = λ text message m h. sends m.files text message h;
    reads = λ m h. reads m.files h;
    closes = λ m h. closes m.files h;
  }

  -- Under every schedule of its two threads a chat sends nothing but lines that begin with "CHAT "
  -- and DISS, all of it to its own socket.
  pub chat_steps-Conforms :
      (ws : List Thread) (c : Chat S)
      → Conforms c.machine.files (chat_steps connector sock ws c).machine.files
  chat_steps-Conforms ws c =
      chat_steps-keeps connector sock (λ m. Conforms c.machine.files m.files)
        (Conforms-IsKept c.machine.files) ws c start
