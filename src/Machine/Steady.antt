-- ===== src/Machine/Steady.antt =====
-- Calls that leave the logged-in user and both runlevels as they are, however they end: a rule for
-- each way to build a call.
use lunix.Base.{◌≡◌, refl, ◌∙◌, Bool, true, false, if◌then◌else◌}
use lunix.Base.Text.{Text}
use lunix.Machine.{
  Machine, Run, M, returns, throws, exits, spent, ◌>>=◌, ◌>>◌, pure, gets, skip, print, print_error,
}
use lunix.Machine.Ends.{Ends, Ends-continue}

pub record Same {S : Type 0} (m n : Machine S) : Type 0 where
  pub users : n.users ≡ m.users
  pub runlevel : n.runlevel ≡ m.runlevel
  pub boot_runlevel : n.boot_runlevel ≡ m.boot_runlevel

pub Same-refl : {S : Type 0} (m : Machine S) → Same m m
Same-refl m = record { users = refl; runlevel = refl; boot_runlevel = refl }

pub Same-trans : {S : Type 0} {m n o : Machine S} → Same m n → Same n o → Same m o
Same-trans a b = record {
  users = b.users ∙ a.users;
  runlevel = b.runlevel ∙ a.runlevel;
  boot_runlevel = b.boot_runlevel ∙ a.boot_runlevel;
}

pub record IsSteady {S A : Type 0} (c : M S A) : Type 0 where
  pub at : (m : Machine S) → Ends (Same m) (c m)

module _ {S A : Type 0} where
  pub Ends-weaken : {m n : Machine S} (r : Run S A) → Same m n → Ends (Same n) r → Ends (Same m) r
  Ends-weaken (returns a o) h e = Same-trans h e
  Ends-weaken (throws o) h e = Same-trans h e
  Ends-weaken (exits k o) h e = Same-trans h e
  Ends-weaken spent h e = tt

  pub IsSteady-pure : (a : A) → IsSteady {S = S} (pure a)
  IsSteady-pure a = record { at = Same-refl }

  pub IsSteady-gets : (f : Machine S → A) → IsSteady (gets f)
  IsSteady-gets f = record { at = Same-refl }

  pub IsSteady-if :
      (b : Bool) (c d : M S A) → IsSteady c → IsSteady d → IsSteady (if b then c else d)
  IsSteady-if true c d hc hd = hc
  IsSteady-if false c d hc hd = hd

module _ {S A B : Type 0} where
  pub IsSteady-bind :
      (c : M S A) (f : A → M S B) → IsSteady c → ((a : A) → IsSteady (f a)) → IsSteady (c >>= f)
  IsSteady-bind c f hc hf = record {
    at = λ m.
        Ends-continue (Same m) (c m) f (hc.at m) (λ a n h. Ends-weaken (f a n) h ((hf a).at n));
  }

  pub IsSteady-then : (c : M S A) (d : M S B) → IsSteady c → IsSteady d → IsSteady (c >> d)
  IsSteady-then c d hc hd = record {
    at = λ m.
        Ends-continue (Same m) (c m) (λ a. d) (hc.at m) (λ a n h. Ends-weaken (d n) h (hd.at n));
  }

module _ {S : Type 0} where
  pub IsSteady-skip : IsSteady {S = S} skip
  IsSteady-skip = record { at = Same-refl }

  pub IsSteady-print : (s : Text) → IsSteady {S = S} (print s)
  IsSteady-print s = record {
    at = λ m. record { users = refl; runlevel = refl; boot_runlevel = refl };
  }

  pub IsSteady-print_error : (s : Text) → IsSteady {S = S} (print_error s)
  IsSteady-print_error s = record {
    at = λ m. record { users = refl; runlevel = refl; boot_runlevel = refl };
  }

pub ruleset steady_rules = (
  IsSteady-pure, IsSteady-gets, IsSteady-if, IsSteady-bind, IsSteady-then, IsSteady-skip,
  IsSteady-print, IsSteady-print_error,
)
