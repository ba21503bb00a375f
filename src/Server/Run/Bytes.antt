-- ===== src/Server/Run/Bytes.antt =====
-- The numbers of a dotted address as text, up to 255: what the tests of getPrivateIP see of them.
use lunix.Base.{
  ap, ℕ, zero, suc, leb, ◌==◌, ◌&&◌, ◌||◌, Bool, All, Bool-cases, inl, inr, true, false, not, List,
  [], ◌∷◌, ◌++◌, Option, none, some, take, ◌≡◌, refl, ◌<◌, sym, arith,
}
use lunix.Base.Text.{Text, codes, starts_with, text_eq, is_empty}
use lunix.Base.Decimal.{decimal}
use lunix.Stream.Lines.{Lacks}
use lunix.Server.Run.{in_range, stoi}

-- A test on every number below a bound.
abbrev all_below : ℕ → (ℕ → Bool) → Bool
all_below zero p = true
all_below (suc n) p = p n && all_below n p

all_below-true : (n : ℕ) (p : ℕ → Bool) (k : ℕ) → all_below n p ≡ true → k < n → p k ≡ true
all_below-true zero p k h lt = absurd (omega (arith, lt))
all_below-true (suc n) p k h lt = elim (Bool-cases (n == k)) [
  | inl e ↦ ground (arith, h, e)
  | inr e ↦ all_below-true n p k (ground (arith, h)) (ground (arith, e, lt))
]

abbrev same : Bool → Bool → Bool
same true b = b
same false b = not b

same-true : (a b : Bool) → same a b ≡ true → a ≡ b
same-true true b h = sym h
same-true false true h = cc h
same-true false false h = refl

abbrev pub lacks_dot : Text → Bool
lacks_dot [] = true
lacks_dot (c ∷ s) = not (c == b'.') && lacks_dot s

pub lacks_dot-Lacks : (s : Text) → lacks_dot s ≡ true → Lacks b'.' s
lacks_dot-Lacks [] h = tt
lacks_dot-Lacks (c ∷ s) h = (ground (arith, h), lacks_dot-Lacks s (ground (arith, h)))

-- A number up to its dot.
pub starts_with-dotted :
    (s t u v : Text)
    → Lacks b'.' s
    → Lacks b'.' u
    → starts_with (s ++ b'.' ∷ t) (u ++ b'.' ∷ v) ≡ text_eq s u && starts_with t v
starts_with-dotted [] t [] v hs hu = refl
starts_with-dotted [] t (d ∷ u) v hs hu = ground (arith, hu.0)
starts_with-dotted (c ∷ s) t [] v hs hu = ground (arith, hs.0)
starts_with-dotted (c ∷ s) t (d ∷ u) v hs hu = ground (arith, starts_with-dotted s t u v hs.1 hu.1)

abbrev pub taken_digits : ℕ → Bool
taken_digits b = (leb 16 b && leb b 31) || leb 160 b

abbrev gives : Option Bool → Bool → Bool
gives none b = false
gives (some a) b = same a b

gives-true : (o : Option Bool) (b : Bool) → gives o b ≡ true → o ≡ some b
gives-true none b h = absurd (cc h)
gives-true (some a) b h = ap some (same-true a b h)

abbrev all_below_256 : (ℕ → Bool) → Bool
all_below_256 = all_below 256

abbrev conj : List Bool → Bool
conj [] = true
conj (b ∷ bs) = b && conj bs

conj-All : (bs : List Bool) → conj bs ≡ true → All (λ b. b ≡ true) bs
conj-All [] h = tt
conj-All (true ∷ bs) h = (refl, conj-All bs h)
conj-All (false ∷ bs) h = cc h

-- What the test of an address looks at in one of its bytes.
abbrev checks : ℕ → List Bool
checks k =
    lacks_dot (decimal k)
    ∷ not (is_empty (decimal k))
    ∷ same (text_eq (decimal k) (codes "192")) (k == 192)
    ∷ same (text_eq (decimal k) (codes "168")) (k == 168)
    ∷ same (text_eq (decimal k) (codes "10")) (k == 10)
    ∷ same (text_eq (decimal k) (codes "172")) (k == 172)
    ∷ gives (in_range (stoi (take 2 (decimal k ++ b'.' ∷ [])))) (taken_digits k)
    ∷ []

pub record Right (k : ℕ) : Type 0 where
  pub lacks : Lacks b'.' (decimal k)
  pub some_digit : is_empty (decimal k) ≡ false
  pub is_192 : text_eq (decimal k) (codes "192") ≡ (k == 192)
  pub is_168 : text_eq (decimal k) (codes "168") ≡ (k == 168)
  pub is_10 : text_eq (decimal k) (codes "10") ≡ (k == 10)
  pub is_172 : text_eq (decimal k) (codes "172") ≡ (k == 172)
  pub first_two : in_range (stoi (take 2 (decimal k ++ b'.' ∷ []))) ≡ some (taken_digits k)

all_right : all_below 256 (λ k. conj (checks k)) ≡ true
unfolding decimal
all_right = refl

not-true : (b : Bool) → not b ≡ true → b ≡ false
not-true true h = cc h
not-true false h = refl

pub byte-Right : (k : ℕ) → k < 256 → Right k
byte-Right k lt =
    let h = conj-All (checks k) (all_below-true 256 (λ k. conj (checks k)) k all_right lt) in
    record {
      lacks = lacks_dot-Lacks (decimal k) h.0;
      some_digit = not-true (is_empty (decimal k)) h.1.0;
      is_192 = same-true (text_eq (decimal k) (codes "192")) (k == 192) h.1.1.0;
      is_168 = same-true (text_eq (decimal k) (codes "168")) (k == 168) h.1.1.1.0;
      is_10 = same-true (text_eq (decimal k) (codes "10")) (k == 10) h.1.1.1.1.0;
      is_172 = same-true (text_eq (decimal k) (codes "172")) (k == 172) h.1.1.1.1.1.0;
      first_two =
          gives-true (in_range (stoi (take 2 (decimal k ++ b'.' ∷ [])))) (taken_digits k)
            h.1.1.1.1.1.1.0;
    }
