-- ===== src/ErrorHandler.antt =====
-- kernel/error_handler.h and kernel/error_handler.cpp: panic, oops, the log file and the signals.
pub mod Oops
pub mod Signals
pub mod Steady
pub mod Closing
use lunix.Base.{
  ℕ, suc, ◌+◌, leb, if◌then◌else◌, not, Bool, true, false, List, [], ◌∷◌, ◌++◌, Option, none, some,
}
use lunix.Base.Text.{Text, codes, text_eq, join, endl}
use lunix.Color.{reset, bold_white, bg_blue, bg_yellow}
use lunix.Machine.{
  Machine, Host, Run, M, returns, ◌>>=◌, ◌>>◌, skip, exit, print, modify, gets, put_files,
}

-- `ver` and `codename` of kernel.h
abbrev pub ver : Text
ver = codes "Kernel version 0.3.0; Lunix shell 0.2.0"

abbrev pub codename : Text
codename = codes "Nova"

abbrev pub log_name : Text
log_name = codes "kernel.log"

abbrev frames : List Text → Text
frames [] = []
frames (f ∷ fs) = join (codes "  " ∷ f ∷ endl ∷ []) ++ frames fs

-- The symbols of the stack, or that they could not be had.
abbrev stack_trace : Option (List Text) → Text
stack_trace none = codes "Failed to retrieve stack trace symbols." ++ endl
stack_trace (some fs) = frames fs

unfoldable pub panic_info : Option (List Text) → Text → Text
panic_info symbols reason = join (
    bg_blue
    ∷ bold_white
    ∷ codes "\nKernel panic: "
    ∷ reason
    ∷ endl
    ∷ codes "[STACK TRACE START]\n"
    ∷ stack_trace symbols
    ∷ codes
        "The kernel has been halted due to a fatal error or critical condition. If this is a bug, please report this on the GitHub issue tracker.\n"
    ∷ codes "Version string(s): "
    ∷ ver
    ∷ endl
    ∷ codes "\n[STACK TRACE END] \nKernel panic: "
    ∷ reason
    ∷ reset
    ∷ endl
    ∷ [])

unfoldable pub oops_info : Option (List Text) → Text → Text
oops_info symbols reason = join (
    bg_yellow
    ∷ bold_white
    ∷ codes "\nKernel oops: "
    ∷ reason
    ∷ endl
    ∷ codes "Stack trace:\n"
    ∷ stack_trace symbols
    ∷ codes "System is in an UNSTABLE state...\n"
    ∷ codes "OS Version: "
    ∷ ver
    ∷ endl
    ∷ codes "CPU Architecture: "
    ∷ codes "x86_64"
    ∷ endl
    ∷ codes "\nend Kernel oops: "
    ∷ reason
    ∷ reset
    ∷ endl
    ∷ [])

-- The signals that have a handler, and the others.
pub data Signal : Type 0 where
  sigsegv sigabrt sigfpe sigill sigbus : Signal
  other : ℕ → Signal

abbrev pub signal_name : Signal → Text
signal_name sigsegv = codes "Segmentation fault"
signal_name sigabrt = codes "Fatal exception"
signal_name sigfpe = codes "Floating-point exception"
signal_name sigill = codes "Illegal instruction"
signal_name sigbus = codes "Bus error"
signal_name (other n) = codes "Unknown signal recieved"

module _ {S : Type 0} (host : Host S) where
  unfoldable pub log_to_file : Text → M S (Unit {0})
  log_to_file message m = elim (host.open_append m.files log_name) [
    | none ↦ print (codes "Failed to open log file." ++ endl) m
    | some s ↦ returns tt (put_files (host.write s log_name message) m)
  ]

  -- system(command)
  unfoldable pub run_system : Text → M S ℕ
  run_system command m =
      let (status, s) = host.system m.files command in returns status (put_files s m)

  -- The end of panic: exit(1), after the bootloader if the flag is set.
  unfoldable pub stop_or_restart : Bool → M S (Unit {0})
  stop_or_restart true = do run_system (codes "../lunix_bootloader -r"); exit 1
  stop_or_restart false = exit 1

  unfoldable pub panic : Text → M S (Unit {0})
  panic reason = do
    print (panic_info host.symbols reason)
    log_to_file (panic_info host.symbols reason)
    restart ← gets (λ m. m.restart_after_panic)
    stop_or_restart restart

  unfoldable pub oops : Text → M S (Unit {0})
  oops reason = do
    modify (λ m. record m { oops_count = m.oops_count + 1 })
    print (oops_info host.symbols reason)
    log_to_file (oops_info host.symbols reason)
    count ← gets (λ m. m.oops_count)
    if leb 10 count then panic (codes "too many oopses: " ++ reason) else skip

  unfoldable pub handle_signal : Signal → M S (Unit {0})
  handle_signal signal =
      if not (text_eq (signal_name signal) (codes "Unknown signal"))
      then panic (signal_name signal)
      else oops (signal_name signal)

  -- On the terminal alone.
  unfoldable pub print_stack_trace : M S (Unit {0})
  print_stack_trace = print (stack_trace host.symbols)
