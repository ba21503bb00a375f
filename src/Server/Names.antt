-- ===== src/Server/Names.antt =====
-- The names that the server keeps for its sockets.
use lunix.Base.{ℕ, ◌≡◌, ◌==◌, if◌then◌else◌, List, [], ◌∷◌, some, arith}
use lunix.Base.Text.{Text}
use lunix.Server.{put_name, find_name}

pub find_name-put_name :
    (socket : ℕ) (name : Text) (names : List (ℕ × Text))
    → find_name socket (put_name socket name names) ≡ some name
unfolding find_name put_name
find_name-put_name socket name [] = ground arith
find_name-put_name socket name ((s, n) ∷ names) =
    ground (arith, find_name-put_name socket name names)

-- A name that is set is found, and the names of the other sockets stay.
pub find_name-put_name_cases :
    (socket other : ℕ) (name : Text) (names : List (ℕ × Text))
    → find_name other (put_name socket name names)
      ≡ (if other == socket then some name else find_name other names)
unfolding find_name put_name
find_name-put_name_cases socket other name [] = ground arith
find_name-put_name_cases socket other name ((s, n) ∷ names) =
    ground (arith, find_name-put_name_cases socket other name names)
