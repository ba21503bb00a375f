-- ===== src/Stream/Closing/Turns.antt =====
-- getline on an input of which a part of a line may have been read.
use lunix.Base.{
  ◌<◌, ◌≤◌, length, refl, ℕ, ◌≡◌, ◌⊎◌, inl, inr, Bool-cases, true, [], ◌∷◌, arith, Option, none,
  some, if_intro,
}
use lunix.Base.Text.{Text, text_eq}
use lunix.Stream.{take_line, Stream, newline, split_at, getline, good}
use lunix.Stream.Closing.Words.{Loose, IsLoose, whole, partial, over}
use lunix.Stream.Lines.{lines, after}
use lunix.Stream.Closing.{
  behind, behind-newline, closes, closes-tail, is_closed, left, length-after,
}
use lunix.Stream.Closing.Reads.{split-Line, Line-Whole, Line, closes-closed}

module _ (last : Text) where
  -- A line that has been read of such an input, and what is left behind it: the line is the last
  -- one, or empty, or another comes.
  pub data Next (l s : Text) : Type 0 where
    last_line : text_eq l last ≡ true → Next l s
    empty_line : l ≡ [] → Next l s
    followed : closes last (lines s) ≡ true → Next l s

  pub record Turn (k : ℕ) (l s : Text) : Type 0 where
    pub closed : is_closed last (lines s) ≡ true
    pub shorter : length s < k
    pub next : Next l s

  Line-Turn : (k : ℕ) (l s : Text) → Line last k l s → Turn k l s
  Line-Turn k l s h = record {
    closed = (Line-Whole last k h (omega arith)).closed;
    shorter = h.shorter;
    next = elim (Bool-cases (text_eq l last)) [
      | inl e ↦ last_line e
      | inr e ↦ followed (closes-tail last l (lines s) h.closed e)
    ];
  }

  at_newline :
      (k : ℕ) (s : Text)
      → s ≡ newline ∷ []
      → length s ≤ k
      → Turn k (split_at newline s).0 (behind last s)
  at_newline k s e h = record {
    closed = rw (e, behind-newline) (unfold lines in unfold is_closed in refl);
    shorter = rw (e, behind-newline) (rw e at h);
    next = empty_line (rw e (unfold split_at in refl));
  }

  split-Turn :
      (k c : ℕ) (s : Text)
      → length (c ∷ s) ≤ k
      → IsLoose last (c ∷ s)
      → Turn k (split_at newline (c ∷ s)).0 (behind last (c ∷ s))
  split-Turn k c s h (whole e) =
      Line-Turn k _ _ (split-Line last k c s (record { closed = e; short = h }))
  split-Turn k c s h (partial e) = record {
    closed = closes-closed last _ e;
    shorter = omega (arith, length-after c s);
    next = followed e;
  }
  split-Turn k c s h (over e) = at_newline k (c ∷ s) e h

  taken-Turn :
      (k : ℕ) (r : Text × Option Text)
      → Turn k r.0 (after r.1)
      → Turn k (take_line r).0 (left (take_line r).1)
  taken-Turn k (l, none) h = h
  taken-Turn k (l, some t) h = h

  -- getline fails where nothing is left, and else takes the rest of a line.
  pub getline-Turn :
      (k : ℕ) (old : Text) (is : Stream)
      → Loose last k (left is)
      → let (l, is') = getline newline old is in
        ((is'.fail ≡ true) × (left is ≡ [])) ⊎ Turn k l (left is')
  unfolding getline
  getline-Turn k old is h =
      if_intro (λ (r : Text × Stream). ((r.1.fail ≡ true) × (left is ≡ [])) ⊎ Turn k r.0 (left r.1))
        (good is) _ _ (λ ok. taken is.rest (rw ok) (rw ok at h.within.short) (rw ok at h.loose))
        (λ bad. inl (refl, rw bad))
    where
      taken :
          (s : Text)
          → left is ≡ s
          → length s ≤ k
          → IsLoose last s
          → let r = take_line (split_at newline s) in
            ((r.1.fail ≡ true) × (left is ≡ [])) ⊎ Turn k r.0 (left r.1)
      taken [] e short w = inl (refl, e)
      taken (c ∷ s) e short w = inr (taken-Turn k _ (split-Turn k c s short w))
