-- ===== src/Stream/Closing/Reads.antt =====
-- The calls of std::istream on an input whose last line is a given one.
use lunix.Base.{
  if_intro, refl, ℕ, suc, ◌≡◌, ◌⊎◌, inl, inr, ◌≤◌, ◌<◌, true, false, List, [], ◌∷◌, arith, length,
  Option, none, some,
}
use lunix.Base.Text.{is_empty, Text, text_eq}
use lunix.Stream.Closing.{
  Pending, Whole, Whole-nil, Within, Within-cons, Within-nil, behind, closed-tail, closes,
  closes-tail, is_closed, left, skip_space-Within, split_word-Within,
}
use lunix.Stream.{
  drop_line, drop_byte, take_line, take_word, Stream, good, newline, split_at, split_word,
  skip_space, getline, read_word, ignore, ignore_line,
}
use lunix.Stream.Lines.{lines, after, lines-split_at, length-after}

module _ (last : Text) where
  pub failed : (is : Stream) → left (record is { fail = true }) ≡ []
  failed is = ground arith

  failed-Within : (k : ℕ) (is : Stream) → Within last k (left (record is { fail = true }))
  failed-Within k is = rw (failed is) (Within-nil last k)

  failed-Whole : (k : ℕ) (is : Stream) → Whole last k (left (record is { fail = true }))
  failed-Whole k is = rw (failed is) (Whole-nil last k)

  pub good-Within :
      (k : ℕ) (is : Stream) → Within last k (left is) → good is ≡ true → Within last k is.rest
  good-Within k is h ok = rw ok at h

  -- operator>> may stop inside a line.
  pub read_word-Within :
      (k : ℕ) (old : Text) (is : Stream)
      → Within last k (left is)
      → Within last k (left (read_word old is).1)
  unfolding read_word
  read_word-Within k old is h =
      if_intro (λ (r : Text × Stream). Within last k (left r.1)) (good is) _ _
        (λ ok.
          taken (skip_space is.rest) (skip_space-Within last k is.rest (good-Within k is h ok)))
        (λ bad. failed-Within k is)
    where
      ended :
          (r : Text)
          → Within last k r
          → Within last k (left (record { rest = r; eof = is_empty r; fail = false }))
      ended [] w = w
      ended (c ∷ s) w = w

      taken : (s : Text) → Within last k s → Within last k (left (take_word old s).1)
      taken [] w = Within-nil last k
      taken (c ∷ s) w = ended (split_word (c ∷ s)).1 (split_word-Within last k (c ∷ s) w)

  pub ignore-Within :
      (k : ℕ) (is : Stream) → Within last k (left is) → Within last k (left (ignore is))
  unfolding ignore
  ignore-Within k is h =
      if_intro (λ (r : Stream). Within last k (left r)) (good is) _ _
        (λ ok. dropped is.rest (good-Within k is h ok)) (λ bad. failed-Within k is)
    where
      dropped : (s : Text) → Within last k s → Within last k (left (drop_byte s))
      dropped [] w = Within-nil last k
      dropped (c ∷ s) w = Within-cons last k c s w

  behind-Whole : (k : ℕ) (s : Text) → Within last k s → Whole last k (behind last s)
  behind-Whole k [] w = unfold split_at in Whole-nil last k
  behind-Whole k (c ∷ s) w = record {
    closed = w.closed;
    short = omega (arith, w.short, length-after c s);
  }

  -- The end of the current line.
  pub ignore_line-Whole :
      (k : ℕ) (is : Stream) → Within last k (left is) → Whole last k (left (ignore_line is))
  unfolding ignore_line
  ignore_line-Whole k is h =
      if_intro (λ (r : Stream). Whole last k (left r)) (good is) _ _
        (λ ok. dropped (split_at newline is.rest) (behind-Whole k is.rest (good-Within k is h ok)))
        (λ bad. failed-Whole k is)
    where
      dropped :
          (r : Text × Option Text) → Whole last k (after r.1) → Whole last k (left (drop_line r))
      dropped (l, none) w = w
      dropped (l, some t) w = w

  pub getline-Whole :
      (k : ℕ) (old : Text) (is : Stream)
      → Within last k (left is)
      → Whole last k (left (getline newline old is).1)
  unfolding getline
  getline-Whole k old is h =
      if_intro (λ (r : Text × Stream). Whole last k (left r.1)) (good is) _ _
        (λ ok. taken (split_at newline is.rest) (behind-Whole k is.rest (good-Within k is h ok)))
        (λ bad. failed-Whole k is)
    where
      taken :
          (r : Text × Option Text) → Whole last k (after r.1) → Whole last k (left (take_line r).1)
      taken (l, none) w = w
      taken (l, some t) w = w

  -- A line that has been read, and what is left behind last it.
  pub record Line (k : ℕ) (l s : Text) : Type 0 where
    pub closed : is_closed last (l ∷ lines s) ≡ true
    pub shorter : length s < k

  pub Line-Whole : {k : ℕ} (j : ℕ) {l s : Text} → Line k l s → k ≤ suc j → Whole last j s
  Line-Whole {k} j {l} {s} h le = record {
    closed = closed-tail last l (lines s) h.closed;
    short = omega (arith, h.shorter);
  }

  -- If the line is not the last one, another comes.
  pub Line-Pending :
      {k : ℕ} (j : ℕ) {l s : Text}
      → Line k l s
      → k ≤ suc j
      → text_eq l last ≡ false
      → Pending last j s
  Line-Pending {k} j {l} {s} h le other = record {
    closed = closes-tail last l (lines s) h.closed other;
    short = omega (arith, h.shorter);
  }

  pub split-Line :
      (k c : ℕ) (s : Text)
      → Whole last k (c ∷ s)
      → Line k (split_at newline (c ∷ s)).0 (behind last (c ∷ s))
  split-Line k c s h = record {
    closed = rw lines-split_at at h.closed;
    shorter = omega (arith, h.short, length-after c s);
  }

  taken-Line :
      (k : ℕ) (r : Text × Option Text)
      → Line k r.0 (after r.1)
      → Line k (take_line r).0 (left (take_line r).1)
  taken-Line k (l, none) h = h
  taken-Line k (l, some t) h = h

  -- getline fails where nothing is left, and else takes the next line.
  pub getline-Line :
      (k : ℕ) (old : Text) (is : Stream)
      → Whole last k (left is)
      → let (l, is') = getline newline old is in
        ((is'.fail ≡ true) × (left is ≡ [])) ⊎ Line k l (left is')
  unfolding getline
  getline-Line k old is h =
      if_intro (λ (r : Text × Stream). ((r.1.fail ≡ true) × (left is ≡ [])) ⊎ Line k r.0 (left r.1))
        (good is) _ _ (λ ok. taken is.rest (rw ok) (rw ok at h)) (λ bad. inl (refl, rw bad))
    where
      taken :
          (s : Text)
          → left is ≡ s
          → Whole last k s
          → let r = take_line (split_at newline s) in
            ((r.1.fail ≡ true) × (left is ≡ [])) ⊎ Line k r.0 (left r.1)
      taken [] e w = inl (refl, e)
      taken (c ∷ s) e w = inr (taken-Line k _ (split-Line k c s w))

  pub closes-closed : (ls : List Text) → closes last ls ≡ true → is_closed last ls ≡ true
  unfolding is_closed closes
  closes-closed [] h = refl
  closes-closed (l ∷ ls) h = h

  pub Pending-Whole : {k : ℕ} {s : Text} → Pending last k s → Whole last k s
  Pending-Whole h = record { closed = closes-closed _ h.closed; short = h.short }

  no_lines : (s : Text) → s ≡ [] → closes last (lines s) ≡ true → ⊥
  unfolding lines closes
  no_lines [] e h = cc
  no_lines (c ∷ s) e h = cc

  -- While a line is to come, getline does not fail.
  pub getline-Pending :
      (k : ℕ) (old : Text) (is : Stream)
      → Pending last k (left is)
      → Line k (getline newline old is).0 (left (getline newline old is).1)
  getline-Pending k old is h = elim (getline-Line k old is (Pending-Whole h)) [
    | inl (failed, e) ↦ absurd (no_lines (left is) e h.closed)
    | inr line ↦ line
  ]
