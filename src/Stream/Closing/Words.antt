-- ===== src/Stream/Closing/Words.antt =====
-- An input whose last line is a given word, and that a call may have left inside a line, as operator>>
-- does.
use lunix.Base.{ℕ, ◌≡◌, true, [], ◌∷◌}
use lunix.Base.Text.{Text}
use lunix.Stream.{newline}
use lunix.Stream.Lines.{lines}
use lunix.Stream.Closing.{Whole, Whole-Within, Within, behind, closes, is_closed}

module _ (last : Text) where
  -- The rest of a line may stand first; behind it comes a line, and the last one is `last`; or the
  -- rest of the last line is empty.
  pub data IsLoose (s : Text) : Type 0 where
    whole : is_closed last (lines s) ≡ true → IsLoose s
    partial : closes last (lines (behind last s)) ≡ true → IsLoose s
    over : s ≡ newline ∷ [] → IsLoose s

  pub record Loose (k : ℕ) (s : Text) : Type 0 where
    pub within : Within last k s
    pub loose : IsLoose s

  pub Whole-Loose : {k : ℕ} {s : Text} → Whole last k s → Loose k s
  Whole-Loose h = record { within = Whole-Within last _ _ h; loose = whole h.closed }
