-- ===== src/ErrorHandler/Closing.antt =====
-- panic, oops and system end, and read nothing of the input.
use lunix.Base.{◌+◌, Bool, true, false, arith}
use lunix.Base.Text.{Text}
use lunix.Stream.{Stream}
use lunix.Machine.{Host, modify}
use lunix.Machine.Closing.{IsClosing, closing_rules}
use lunix.ErrorHandler.{log_to_file, run_system, stop_or_restart, panic, oops}

module _ {S : Type 0} (host : Host S) (Q : Stream → Type 0) where
  log_to_file-IsClosing : (message : Text) → IsClosing Q (log_to_file host message)
  unfolding log_to_file
  log_to_file-IsClosing message = record { at = λ m h. ground arith }

  pub run_system-IsClosing : (command : Text) → IsClosing Q (run_system host command)
  unfolding run_system
  run_system-IsClosing command = record { at = λ m h. h }

  stop_or_restart-IsClosing : (restart : Bool) → IsClosing Q (stop_or_restart host restart)
  stop_or_restart-IsClosing true =
      unfold stop_or_restart in search (closing_rules, run_system-IsClosing)
  stop_or_restart-IsClosing false = unfold stop_or_restart in search closing_rules

  pub panic-IsClosing : (reason : Text) → IsClosing Q (panic host reason)
  panic-IsClosing reason =
      unfold panic in
      search (closing_rules, log_to_file-IsClosing, stop_or_restart-IsClosing) depth 9

  IsClosing-count : IsClosing Q (modify {S = S} (λ m. record m { oops_count = m.oops_count + 1 }))
  IsClosing-count = record { at = λ m h. h }

  pub oops-IsClosing : (reason : Text) → IsClosing Q (oops host reason)
  oops-IsClosing reason =
      unfold oops in
      search (closing_rules, log_to_file-IsClosing, IsClosing-count, panic-IsClosing) depth 12
