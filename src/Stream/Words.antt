-- ===== src/Stream/Words.antt =====
-- operator>> on words with white space around them.
use lunix.Base.{ℕ, ◌≡◌, refl, true, false, [], ◌∷◌, ◌++◌, All, arith}
use lunix.Base.Text.{Text}
use lunix.Stream.{stream, newline, is_space, split_word, skip_space, read_word}
use lunix.Stream.Lines.{Lacks}

-- A byte and the bytes behind it, none of them white space.
abbrev pub IsWord : Text → Type 0
IsWord [] = ⊥
IsWord (c ∷ s) = All (λ d. is_space d ≡ false) (c ∷ s)

split_word-space :
    (b : ℕ) (w r : Text)
    → is_space b ≡ true
    → All (λ d. is_space d ≡ false) w
    → split_word (w ++ b ∷ r) ≡ (w, b ∷ r)
unfolding split_word
split_word-space b [] r e h = rw e
split_word-space b (c ∷ w) r e h = rw (h.0, split_word-space b w r e h.1)

split_word-end : (w : Text) → All (λ d. is_space d ≡ false) w → split_word w ≡ (w, [])
unfolding split_word
split_word-end [] h = refl
split_word-end (c ∷ w) h = rw (h.0, split_word-end w h.1)

-- operator>> takes a word up to the white space behind it.
pub read_word-space :
    (b : ℕ) (w r : Text)
    → is_space b ≡ true
    → IsWord w
    → read_word [] (stream (w ++ b ∷ r)) ≡ (w, stream (b ∷ r))
unfolding read_word skip_space
read_word-space b [] r e h = absurd h
read_word-space b (c ∷ w) r e h = rw (h.0, split_word-space b (c ∷ w) r e h)

-- White space in front of a last word is skipped.
pub read_word-end : (w : Text) → IsWord w → (read_word [] (stream (32 ∷ w))).0 ≡ w
unfolding read_word skip_space
read_word-end [] h = absurd h
read_word-end (c ∷ w) h = rw (h.0, split_word-end (c ∷ w) h)

word-Lacks : (w : Text) → All (λ d. is_space d ≡ false) w → Lacks newline w
word-Lacks [] h = tt
word-Lacks (c ∷ w) h = (ground (arith, h.0), word-Lacks w h.1)

pub IsWord-Lacks : (w : Text) → IsWord w → Lacks newline w
IsWord-Lacks [] h = absurd h
IsWord-Lacks (c ∷ w) h = word-Lacks (c ∷ w) h
