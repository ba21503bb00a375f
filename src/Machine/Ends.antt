-- ===== src/Machine/Ends.antt =====
-- Predicates on the machine that a call leaves, however it ends.
use lunix.Base.{◌≡◌, refl}
use lunix.Stream.{Stream}
use lunix.Machine.{Machine, Run, M, returns, throws, exits, spent, continue}

module _ {S A : Type 0} where
  -- The call left a machine with `P`, unless it is still running.
  abbrev pub Ends : (Machine S → Type 0) → Run S A → Type 0
  Ends P (returns a m) = P m
  Ends P (throws m) = P m
  Ends P (exits n m) = P m
  Ends P spent = Unit {0}

module _ {S A : Type 0} where
  pub Ends-imp :
      (P Q : Machine S → Type 0) (r : Run S A) → ((m : Machine S) → P m → Q m) → Ends P r → Ends Q r
  Ends-imp P Q (returns a m) f h = f m h
  Ends-imp P Q (throws m) f h = f m h
  Ends-imp P Q (exits n m) f h = f m h
  Ends-imp P Q spent f h = tt

module _ {S A B : Type 0} where
  pub Ends-continue :
      (P : Machine S → Type 0) (r : Run S A) (f : A → M S B)
      → Ends P r
      → ((a : A) (m : Machine S) → P m → Ends P (f a m))
      → Ends P (continue r f)
  Ends-continue P (returns a m) f h k = k a m h
  Ends-continue P (throws m) f h k = h
  Ends-continue P (exits n m) f h k = h
  Ends-continue P spent f h k = tt

module _ {S A : Type 0} where
  -- The call ends: it is not still running when the fuel is spent.
  abbrev pub Finishes : Run S A → Type 0
  Finishes (returns a m) = Unit {0}
  Finishes (throws m) = Unit {0}
  Finishes (exits n m) = Unit {0}
  Finishes spent = ⊥

module _ {S A B : Type 0} where
  pub Finishes-continue :
      (r : Run S A) (f : A → M S B)
      → Finishes r
      → ((a : A) (m : Machine S) → Finishes (f a m))
      → Finishes (continue r f)
  Finishes-continue (returns a m) f h k = k a m
  Finishes-continue (throws m) f h k = tt
  Finishes-continue (exits n m) f h k = tt
  Finishes-continue spent f h k = h

module _ {S A : Type 0} where
  -- The call returns, with `P` of its result and of the machine that it leaves.
  abbrev pub Returns : (A → Machine S → Type 0) → Run S A → Type 0
  Returns P (returns a m) = P a m
  Returns P (throws m) = ⊥
  Returns P (exits n m) = ⊥
  Returns P spent = ⊥

module _ {S A : Type 0} where
  pub Returns-returns :
      (P : A → Machine S → Type 0) (r : Run S A)
      → Returns P r
      → (a : A) × (n : Machine S) × (r ≡ returns a n) × P a n
  Returns-returns P (returns a m) h = (a, m, refl, h)
  Returns-returns P (throws m) h = absurd h
  Returns-returns P (exits n m) h = absurd h
  Returns-returns P spent h = absurd h

module _ {S A B : Type 0} where
  pub Returns-continue :
      (P : A → Machine S → Type 0) (Q : B → Machine S → Type 0) (r : Run S A) (f : A → M S B)
      → Returns P r
      → ((a : A) (m : Machine S) → P a m → Returns Q (f a m))
      → Returns Q (continue r f)
  Returns-continue P Q (returns a m) f h k = k a m h
  Returns-continue P Q (throws m) f h k = absurd h
  Returns-continue P Q (exits n m) f h k = absurd h
  Returns-continue P Q spent f h k = absurd h

module _ {S : Type 0} where
  -- A machine with these files and this input.
  pub record Holds (s : S) (input : Stream) (m : Machine S) : Type 0 where
    pub files : m.files ≡ s
    pub typed : m.input ≡ input

  -- The call returns, with these files and this input.
  abbrev pub Arrives : {A : Type 0} → S → Stream → Run S A → Type 0
  Arrives s input = Returns (λ a. Holds s input)
