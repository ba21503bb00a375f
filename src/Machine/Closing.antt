-- ===== src/Machine/Closing.antt =====
-- Calls that end and keep a predicate of the input: a rule for each way to build a call.
use lunix.Base.{◌≡◌, arith, Bool, true, false, if◌then◌else◌}
use lunix.Base.Text.{Text}
use lunix.Stream.{Stream}
use lunix.Machine.{
  Machine, Run, M, returns, throws, exits, spent, continue, ◌>>=◌, ◌>>◌, pure, exit, gets, skip,
  print, print_error,
}

module _ {S A : Type 0} where
  -- The call ends: it leaves a machine with `P` if it returns, and the status is 1 if it ends the
  -- process.
  abbrev pub Settles : (Machine S → Type 0) → Run S A → Type 0
  Settles P (returns a m) = P m
  Settles P (throws m) = Unit {0}
  Settles P (exits n m) = n ≡ 1
  Settles P spent = ⊥

  pub Settles-imp :
      (P Q : Machine S → Type 0) (r : Run S A)
      → ((m : Machine S) → P m → Q m)
      → Settles P r
      → Settles Q r
  Settles-imp P Q (returns a m) f h = f m h
  Settles-imp P Q (throws m) f h = h
  Settles-imp P Q (exits n m) f h = h
  Settles-imp P Q spent f h = h

module _ {S A B : Type 0} where
  pub Settles-continue :
      (P Q : Machine S → Type 0) (r : Run S A) (f : A → M S B)
      → Settles P r
      → ((a : A) (m : Machine S) → P m → Settles Q (f a m))
      → Settles Q (continue r f)
  Settles-continue P Q (returns a m) f h k = k a m h
  Settles-continue P Q (throws m) f h k = tt
  Settles-continue P Q (exits n m) f h k = h
  Settles-continue P Q spent f h k = h

module _ (Q : Stream → Type 0) where
  -- The call ends, and keeps `Q` of the input if it returns.
  pub record IsClosing {S A : Type 0} (c : M S A) : Type 0 where
    pub at : (m : Machine S) → Q m.input → Settles (λ n. Q n.input) (c m)

  module _ {S A : Type 0} where
    pub IsClosing-pure : (a : A) → IsClosing {S = S} (pure a)
    IsClosing-pure a = record { at = λ m h. h }

    pub IsClosing-exit : IsClosing {S = S} {A = A} (exit 1)
    IsClosing-exit = record { at = λ m h. omega arith }

    pub IsClosing-gets : (f : Machine S → A) → IsClosing (gets f)
    IsClosing-gets f = record { at = λ m h. h }

    pub IsClosing-if :
        (b : Bool) (c d : M S A) → IsClosing c → IsClosing d → IsClosing (if b then c else d)
    IsClosing-if true c d hc hd = hc
    IsClosing-if false c d hc hd = hd

  module _ {S A B : Type 0} where
    pub IsClosing-bind :
        (c : M S A) (f : A → M S B)
        → IsClosing c
        → ((a : A) → IsClosing (f a))
        → IsClosing (c >>= f)
    IsClosing-bind c f hc hf = record {
      at = λ m h.
          Settles-continue (λ n. Q n.input) (λ n. Q n.input) (c m) f (hc.at m h) (λ a. (hf a).at);
    }

    pub IsClosing-then : (c : M S A) (d : M S B) → IsClosing c → IsClosing d → IsClosing (c >> d)
    IsClosing-then c d hc hd = record {
      at = λ m h.
          Settles-continue (λ n. Q n.input) (λ n. Q n.input) (c m) (λ a. d) (hc.at m h)
            (λ a. hd.at);
    }

  module _ {S : Type 0} where
    pub IsClosing-skip : IsClosing {S = S} skip
    IsClosing-skip = record { at = λ m h. h }

    pub IsClosing-print : (s : Text) → IsClosing {S = S} (print s)
    IsClosing-print s = record { at = λ m h. h }

    pub IsClosing-print_error : (s : Text) → IsClosing {S = S} (print_error s)
    IsClosing-print_error s = record { at = λ m h. h }

  pub ruleset closing_rules = (
    IsClosing-pure, IsClosing-exit, IsClosing-gets, IsClosing-if, IsClosing-bind, IsClosing-then,
    IsClosing-skip, IsClosing-print, IsClosing-print_error,
  )
