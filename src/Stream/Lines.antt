-- ===== src/Stream/Lines.antt =====
-- The lines of a text, as a loop `while (std::getline(is, line))` meets them.
use lunix.Base.{
  ℕ, ◌<◌, ◌≡◌, ◌≢◌, ◌⊎◌, refl, sym, ◌∙◌, ap, ◌==◌, if◌then◌else◌, true, false, List, [], ◌∷◌, ◌++◌,
  Option, none, some, arith, length, All,
}
use lunix.Base.Text.{c_string, Text}
use lunix.Stream.{stream, newline, split_at, take_line, getline}

abbrev onto_first : ℕ → List Text → List Text
onto_first c [] = (c ∷ []) ∷ []
onto_first c (l ∷ ls) = (c ∷ l) ∷ ls

add_byte : ℕ → List Text → List Text
add_byte c ls = if c == newline then [] ∷ ls else onto_first c ls

unfoldable pub lines : Text → List Text
unfolding add_byte
lines [] = []
lines (c ∷ s) = add_byte c (lines s)

-- A text that ends with a newline, or is empty.
abbrev pub IsTerminated : Text → Type 0
IsTerminated [] = Unit {0}
IsTerminated (c ∷ []) = c ≡ newline
IsTerminated (c ∷ d ∷ s) = IsTerminated (d ∷ s)

-- No byte of the text is `b`.
abbrev pub Lacks : ℕ → Text → Type 0
Lacks b = All (λ c. c ≢ b)

-- A text with no byte 0 is what a C string shows of it.
pub c_string-Lacks : (s : Text) → Lacks 0 s → c_string s ≡ s
c_string-Lacks [] h = refl
c_string-Lacks (c ∷ s) h = ground (arith, h.0, c_string-Lacks s h.1)

-- Lines as they are typed, each with its newline.
abbrev pub unlines : List Text → Text
unlines [] = []
unlines (l ∷ ls) = l ++ newline ∷ unlines ls

abbrev NotNil : List Text → Type 0
NotNil [] = ⊥
NotNil (l ∷ ls) = Unit {0}

lines-NotNil : (c : ℕ) (s : Text) → NotNil (lines (c ∷ s))
unfolding lines
lines-NotNil c [] = ground arith
lines-NotNil c (d ∷ s) = ground (arith, lines-NotNil d s)

add_byte-append :
    (c : ℕ) (ls ms : List Text) → NotNil ls → add_byte c (ls ++ ms) ≡ add_byte c ls ++ ms
unfolding add_byte
add_byte-append c [] ms h = absurd h
add_byte-append c (l ∷ ls) ms h = ground arith

lines-cons : (c : ℕ) (s : Text) → lines (c ∷ s) ≡ add_byte c (lines s)
unfolding lines
lines-cons c s = refl

-- A terminated text keeps its lines whatever is appended.
pub lines-append : (s t : Text) → IsTerminated s → lines (s ++ t) ≡ lines s ++ lines t
lines-append [] t h = unfold lines in refl
lines-append (c ∷ []) t h = unfold lines in rw h
lines-append (c ∷ d ∷ s) t h =
    lines-cons c (d ∷ s ++ t)
    ∙ ap (add_byte c) (lines-append (d ∷ s) t h)
    ∙ add_byte-append c (lines (d ∷ s)) (lines t) (lines-NotNil d s)
    ∙ ap (λ ls. ls ++ lines t) (sym (lines-cons c (d ∷ s)))

-- A line without a newline, as it is written with one.
pub lines-line : (s : Text) → Lacks newline s → lines (s ++ newline ∷ []) ≡ s ∷ []
unfolding lines
lines-line [] h = refl
lines-line (c ∷ s) h = ground (arith, h.0, lines-line s h.1)

pub IsTerminated-line : (s : Text) → IsTerminated (s ++ newline ∷ [])
IsTerminated-line [] = refl
IsTerminated-line (c ∷ []) = refl
IsTerminated-line (c ∷ d ∷ s) = IsTerminated-line (d ∷ s)

pub IsTerminated-append : (s t : Text) → IsTerminated s → IsTerminated t → IsTerminated (s ++ t)
IsTerminated-append [] t hs ht = ht
IsTerminated-append (c ∷ []) [] hs ht = hs
IsTerminated-append (c ∷ []) (e ∷ t) hs ht = ht
IsTerminated-append (c ∷ d ∷ s) t hs ht = IsTerminated-append (d ∷ s) t hs ht

abbrev pub after : Option Text → Text
after none = []
after (some r) = r

-- What getline splits off a text that is not empty is its first line.
pub lines-split_at :
    (c : ℕ) (s : Text)
    → lines (c ∷ s) ≡ (split_at newline (c ∷ s)).0 ∷ lines (after (split_at newline (c ∷ s)).1)
unfolding lines split_at
lines-split_at c [] = ground arith
lines-split_at c (d ∷ s) = ground (arith, lines-split_at d s)

-- The rest is shorter than the text.
pub length-after : (c : ℕ) (s : Text) → length (after (split_at newline (c ∷ s)).1) < length (c ∷ s)
unfolding split_at
length-after c [] = ground arith
length-after c (d ∷ s) = ground (arith, length-after d s)

-- A text without the delimiter is taken whole.
pub split_at-Lacks : (b : ℕ) (s : Text) → Lacks b s → split_at b s ≡ (s, none)
unfolding split_at
split_at-Lacks b [] h = refl
split_at-Lacks b (c ∷ s) h = ground (arith, h.0, split_at-Lacks b s h.1)

-- The first delimiter is where the text is split.
pub split_at-append : (b : ℕ) (s t : Text) → Lacks b s → split_at b (s ++ b ∷ t) ≡ (s, some t)
unfolding split_at
split_at-append b [] t h = ground arith
split_at-append b (c ∷ s) t h = ground (arith, h.0, split_at-append b s t h.1)

pub getline-stream : (b : ℕ) (old s : Text) → getline b old (stream s) ≡ take_line (split_at b s)
unfolding getline
getline-stream b old s = refl

-- Two ways for getline to leave a text that is not empty: before a newline, or at the end.
pub getline_cases :
    (c : ℕ) (s old : Text)
    → let l = (split_at newline (c ∷ s)).0 in
      let r = after (split_at newline (c ∷ s)).1 in
      (getline newline old (stream (c ∷ s)) ≡ (l, stream r))
      ⊎ ((getline newline old (stream (c ∷ s))
            ≡ (l, record { rest = []; eof = true; fail = false }))
          × (r ≡ []))
unfolding getline
getline_cases c s old = ground arith

-- A line that ends with a newline is read whole, and the stream goes on behind it.
pub getline-line :
    (old s r : Text)
    → Lacks newline s
    → getline newline old (stream (s ++ newline ∷ r)) ≡ (s, stream r)
getline-line old s r h =
    rw (getline-stream newline old (s ++ newline ∷ r), split_at-append newline s r h)
