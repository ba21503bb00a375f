-- ===== src/Stream/Closing.antt =====
-- Inputs whose last line is a given one, and how the calls of std::istream keep them so.
pub mod Reads
pub mod Words
pub mod Turns
use lunix.Base.{
  if_intro, Bool-cases, refl, ◌==◌, ℕ, suc, ◌≡◌, ◌⊎◌, inl, inr, ◌≤◌, ◌<◌, Bool, true, false, List,
  [], ◌∷◌, arith, length, if◌then◌else◌, Option, none, some,
}
use lunix.Base.Text.{is_empty, Text, text_eq}
use lunix.Stream.{
  drop_line, drop_byte, take_line, take_word, is_space, Stream, stream, good, newline, split_at,
  split_word, skip_space, getline, read_word, ignore, ignore_line,
}
use lunix.Stream.Lines.{lines, after, lines-split_at, length-after, getline_cases}

-- What can still be read.
abbrev pub left : Stream → Text
left is = if good is then is.rest else []

module _ (last : Text) where
  -- There is a line, and the last one is `last`.
  unfoldable pub closes : List Text → Bool
  closes [] = false
  closes (l ∷ []) = text_eq l last
  closes (l ∷ k ∷ ls) = closes (k ∷ ls)

  -- There is no line, or the last one is `last`.
  unfoldable pub is_closed : List Text → Bool
  is_closed [] = true
  is_closed (l ∷ ls) = closes (l ∷ ls)

  -- What is behind the line that stands first.
  abbrev pub behind : Text → Text
  behind s = after (split_at newline s).1

  -- Of at most `k` bytes to come, the last line is `last`.
  pub record Whole (k : ℕ) (s : Text) : Type 0 where
    pub closed : is_closed (lines s) ≡ true
    pub short : length s ≤ k

  -- The same behind the current line, of which a part has been read.
  pub record Within (k : ℕ) (s : Text) : Type 0 where
    pub closed : is_closed (lines (behind s)) ≡ true
    pub short : length s ≤ k

  -- There is a line to come, and the last one is `last`.
  pub record Pending (k : ℕ) (s : Text) : Type 0 where
    pub closed : closes (lines s) ≡ true
    pub short : length s ≤ k

  pub closed-tail : (l : Text) (ls : List Text) → is_closed (l ∷ ls) ≡ true → is_closed ls ≡ true
  unfolding is_closed closes
  closed-tail l [] h = refl
  closed-tail l (k ∷ ls) h = h

  pub closes-tail :
      (l : Text) (ls : List Text)
      → is_closed (l ∷ ls) ≡ true
      → text_eq l last ≡ false
      → closes ls ≡ true
  unfolding is_closed closes
  closes-tail l [] h other = cc
  closes-tail l (k ∷ ls) h other = h

  pub Whole-nil : (k : ℕ) → Whole k []
  Whole-nil k = record { closed = unfold lines in unfold is_closed in refl; short = omega arith }

  pub Whole-le : {j : ℕ} (k : ℕ) {s : Text} → Whole j s → j ≤ k → Whole k s
  Whole-le k h le = record { closed = h.closed; short = omega (arith, h.short) }

  pub Whole-Within : (k : ℕ) (s : Text) → Whole k s → Within k s
  Whole-Within k [] h = record {
    closed = unfold lines in unfold split_at in unfold is_closed in refl;
    short = h.short;
  }
  Whole-Within k (c ∷ s) h = record {
    closed = closed-tail _ _ (rw lines-split_at at h.closed);
    short = h.short;
  }

  pub behind-newline : (s : Text) → behind (newline ∷ s) ≡ s
  unfolding split_at
  behind-newline s = refl

  pub behind-cons : (c : ℕ) (s : Text) → (c == newline) ≡ false → behind (c ∷ s) ≡ behind s
  unfolding split_at
  behind-cons c s other = ground (arith, other)

  -- One byte less.
  pub Within-cons : (k c : ℕ) (s : Text) → Within k (c ∷ s) → Within k s
  Within-cons k c s h = elim (Bool-cases (c == newline)) [
    | inl end ↦
        let e : c ≡ newline = grind arith in
        Whole-Within k s
          (record { closed = rw (e, behind-newline) at h.closed; short = omega (arith, h.short) })
    | inr on ↦ record {
      closed = rw (behind-cons c s on) at h.closed;
      short = omega (arith, h.short);
    }
  ]

  pub skip_space-Within : (k : ℕ) (s : Text) → Within k s → Within k (skip_space s)
  unfolding skip_space
  skip_space-Within k [] h = h
  skip_space-Within k (c ∷ s) h =
      if_intro (Within k) (is_space c) _ _ (λ space. skip_space-Within k s (Within-cons k c s h))
        (λ word. h)

  pub split_word-Within : (k : ℕ) (s : Text) → Within k s → Within k (split_word s).1
  unfolding split_word
  split_word-Within k [] h = h
  split_word-Within k (c ∷ s) h =
      if_intro (λ (r : Text × Text). Within k r.1) (is_space c) _ _ (λ space. h)
        (λ word. split_word-Within k s (Within-cons k c s h))

  pub Within-nil : (k : ℕ) → Within k []
  Within-nil k = Whole-Within k [] (Whole-nil k)
