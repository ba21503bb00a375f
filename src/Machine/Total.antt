-- ===== src/Machine/Total.antt =====
-- Calls that end from every machine: a rule for each way to build a call.
use lunix.Base.{ℕ, Bool, true, false, if◌then◌else◌}
use lunix.Base.Text.{Text}
use lunix.Machine.{Machine, M, ◌>>=◌, ◌>>◌, pure, exit, gets, skip, modify, print}
use lunix.Machine.Ends.{Finishes, Finishes-continue}

pub record IsTotal {S A : Type 0} (c : M S A) : Type 0 where
  pub at : (m : Machine S) → Finishes (c m)

module _ {S A : Type 0} where
  pub IsTotal-pure : (a : A) → IsTotal {S = S} (pure a)
  IsTotal-pure a = record { at = λ m. tt }

  pub IsTotal-exit : (n : ℕ) → IsTotal {S = S} {A = A} (exit n)
  IsTotal-exit n = record { at = λ m. tt }

  pub IsTotal-gets : (f : Machine S → A) → IsTotal (gets f)
  IsTotal-gets f = record { at = λ m. tt }

  pub IsTotal-if : (b : Bool) (c d : M S A) → IsTotal c → IsTotal d → IsTotal (if b then c else d)
  IsTotal-if true c d hc hd = hc
  IsTotal-if false c d hc hd = hd

module _ {S A B : Type 0} where
  pub IsTotal-bind :
      (c : M S A) (f : A → M S B) → IsTotal c → ((a : A) → IsTotal (f a)) → IsTotal (c >>= f)
  IsTotal-bind c f hc hf = record {
    at = λ m. Finishes-continue (c m) f (hc.at m) (λ a n. (hf a).at n);
  }

  pub IsTotal-then : (c : M S A) (d : M S B) → IsTotal c → IsTotal d → IsTotal (c >> d)
  IsTotal-then c d hc hd = record {
    at = λ m. Finishes-continue (c m) (λ a. d) (hc.at m) (λ a n. hd.at n);
  }

module _ {S : Type 0} where
  pub IsTotal-skip : IsTotal {S = S} skip
  IsTotal-skip = record { at = λ m. tt }

  pub IsTotal-modify : (f : Machine S → Machine S) → IsTotal (modify f)
  IsTotal-modify f = record { at = λ m. tt }

  pub IsTotal-print : (s : Text) → IsTotal {S = S} (print s)
  IsTotal-print s = record { at = λ m. tt }

pub ruleset total_rules = (
  IsTotal-pure, IsTotal-exit, IsTotal-gets, IsTotal-if, IsTotal-bind, IsTotal-then, IsTotal-skip,
  IsTotal-modify, IsTotal-print,
)
