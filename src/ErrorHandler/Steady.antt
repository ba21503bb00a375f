-- ===== src/ErrorHandler/Steady.antt =====
-- panic, oops and the log leave the user and the runlevels alone.
use lunix.Base.{ℕ, Bool, true, false, arith}
use lunix.Base.Text.{Text}
use lunix.Machine.{Host, exit}
use lunix.Machine.Steady.{IsSteady, steady_rules, Same-refl}
use lunix.ErrorHandler.{log_to_file, run_system, stop_or_restart, panic}

module _ {S : Type 0} (host : Host S) where
  log_to_file-IsSteady : (message : Text) → IsSteady (log_to_file host message)
  unfolding log_to_file
  log_to_file-IsSteady message = record { at = λ m. ground arith }

  pub run_system-IsSteady : (command : Text) → IsSteady (run_system host command)
  unfolding run_system
  run_system-IsSteady command = record { at = λ m. ground arith }

  exit-IsSteady : (n : ℕ) → IsSteady {S = S} {A = Unit {0}} (exit n)
  exit-IsSteady n = record { at = Same-refl }

  stop_or_restart-IsSteady : (restart : Bool) → IsSteady (stop_or_restart host restart)
  stop_or_restart-IsSteady true =
      unfold stop_or_restart in search (steady_rules, run_system-IsSteady, exit-IsSteady)
  stop_or_restart-IsSteady false = unfold stop_or_restart in exit-IsSteady 1

  pub panic-IsSteady : (reason : Text) → IsSteady (panic host reason)
  panic-IsSteady reason =
      unfold panic in search (steady_rules, log_to_file-IsSteady, stop_or_restart-IsSteady) depth 9
