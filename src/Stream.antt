-- ===== src/Stream.antt =====
-- The parts of std::istream that the sources read with: std::getline, operator>> into a string
-- and ignore, over the bytes that are still to come.
pub mod Lines
pub mod Words
pub mod Closing
use lunix.Base.{
  ℕ, ◌==◌, if◌then◌else◌, Bool, true, false, not, ◌&&◌, ◌||◌, List, [], ◌∷◌, Option, none, some,
}
use lunix.Base.Text.{Text, is_empty}

abbrev pub newline : ℕ
newline = 10

-- `good()` is that neither flag is set.
pub record Stream : Type 0 where
  pub rest : Text
  pub eof : Bool
  pub fail : Bool

abbrev pub stream : Text → Stream
stream s = record { rest = s; eof = false; fail = false }

abbrev pub good : Stream → Bool
good s = not s.eof && not s.fail

-- What stands before the first `delim`, and what comes after it if there is one.
abbrev pub put_front : ℕ → Text × Option Text → Text × Option Text
put_front c (s, r) = (c ∷ s, r)

unfoldable pub split_at : ℕ → Text → Text × Option Text
split_at delim [] = ([], none)
split_at delim (c ∷ s) = if c == delim then ([], some s) else put_front c (split_at delim s)

abbrev pub take_line : Text × Option Text → Text × Stream
take_line (s, some r) = (s, stream r)
take_line (s, none) = (s, record { rest = []; eof = true; fail = is_empty s })

-- std::getline(is, old, delim). A stream that is not good fails and leaves the string as it was.
unfoldable pub getline : ℕ → Text → Stream → Text × Stream
unfolding split_at
getline delim old is =
    if good is then take_line (split_at delim is.rest) else (old, record is { fail = true })

-- The bytes that std::isspace accepts in the "C" locale.
abbrev pub is_space : ℕ → Bool
is_space c = c == 32 || c == 9 || c == 10 || c == 11 || c == 12 || c == 13

unfoldable pub skip_space : Text → Text
skip_space [] = []
skip_space (c ∷ s) = if is_space c then skip_space s else c ∷ s

abbrev pub put_byte : ℕ → Text × Text → Text × Text
put_byte c (w, r) = (c ∷ w, r)

unfoldable pub split_word : Text → Text × Text
split_word [] = ([], [])
split_word (c ∷ s) = if is_space c then ([], c ∷ s) else put_byte c (split_word s)

-- The end of the input met while skipping fails, and leaves the string; met behind a word it only
-- sets `eof`.
abbrev pub take_word : Text → Text → Text × Stream
take_word old [] = (old, record { rest = []; eof = true; fail = true })
take_word old (c ∷ s) =
    let (w, r) = split_word (c ∷ s) in (w, record { rest = r; eof = is_empty r; fail = false })

-- is >> old
unfoldable pub read_word : Text → Stream → Text × Stream
unfolding skip_space split_word
read_word old is =
    if good is then take_word old (skip_space is.rest) else (old, record is { fail = true })

abbrev pub drop_byte : Text → Stream
drop_byte [] = record { rest = []; eof = true; fail = false }
drop_byte (c ∷ s) = stream s

-- is.ignore()
unfoldable pub ignore : Stream → Stream
ignore is = if good is then drop_byte is.rest else record is { fail = true }

abbrev pub drop_line : Text × Option Text → Stream
drop_line (s, some r) = stream r
drop_line (s, none) = record { rest = []; eof = true; fail = false }

-- is.ignore(std::numeric_limits<std::streamsize>::max(), '\n')
unfoldable pub ignore_line : Stream → Stream
unfolding split_at
ignore_line is = if good is then drop_line (split_at newline is.rest) else record is { fail = true }
