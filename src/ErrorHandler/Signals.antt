-- ===== src/ErrorHandler/Signals.antt =====
-- handle_signal: which signals end in panic and which in oops.
use lunix.Base.{◌≡◌, refl}
use lunix.Machine.{Machine, Host}
use lunix.ErrorHandler.{
  Signal, sigsegv, sigabrt, sigfpe, sigill, sigbus, other, signal_name, panic, handle_signal,
}

-- Every signal ends in panic under its name, also one that has no name of its own: the text that
-- is compared with, "Unknown signal", is not the one that such a signal gets.
pub handle_signal_panics :
    {S : Type 0} (host : Host S) (signal : Signal) (m : Machine S)
    → handle_signal host signal m ≡ panic host (signal_name signal) m
handle_signal_panics host sigsegv m = unfold handle_signal in refl
handle_signal_panics host sigabrt m = unfold handle_signal in refl
handle_signal_panics host sigfpe m = unfold handle_signal in refl
handle_signal_panics host sigill m = unfold handle_signal in refl
handle_signal_panics host sigbus m = unfold handle_signal in refl
handle_signal_panics host (other n) m = unfold handle_signal in refl
