-- ===== src/ErrorHandler/Oops.antt =====
-- panic ends the process and logs what it prints; oops does so at the tenth call.
use lunix.Base.{
  ℕ, ◌+◌, ◌<◌, ◌≡◌, ◌∙◌, refl, inl, inr, leb, if◌then◌else◌, Bool, true, false, List, [], ◌∷◌, ◌++◌,
  Option, none, some, arith, length, Bool-cases,
}
use lunix.Base.Text.{Text, codes, endl}
use lunix.Os.{FileLaws, contents}
use lunix.Machine.{Machine, Host, M, returns, exits, ◌>>◌, skip, put_files, put_out}
use lunix.Machine.Ends.{Finishes}
use lunix.Machine.Total.{IsTotal}
use lunix.ErrorHandler.{
  run_system, log_name, panic_info, oops_info, log_to_file, panic, stop_or_restart, oops,
}

below : (k n : ℕ) → n < k → leb k n ≡ false
below k n h = ground arith

module _ {S : Type 0} (host : Host S) where
  -- What a message leaves in the log file and on the terminal.
  abbrev logged_by : Option S → Text → Machine S → Machine S
  logged_by none message m = put_out (codes "Failed to open log file." ++ endl) m
  logged_by (some s) message m = put_files (host.write s log_name message) m

  abbrev logged : Text → Machine S → Machine S
  logged message m = logged_by (host.open_append m.files log_name) message m

  log_to_file-eq :
      (message : Text) (m : Machine S) → log_to_file host message m ≡ returns tt (logged message m)
  unfolding log_to_file
  log_to_file-eq message m = ground arith

  count-logged :
      (message : Text) (m : Machine S)
      → ((logged message m).oops_count ≡ m.oops_count)
        × ((logged message m).restart_after_panic ≡ m.restart_after_panic)
  count-logged message m = ground arith

  stop_or_restart-exits :
      (restart : Bool) (m : Machine S)
      → (n : Machine S) × (stop_or_restart host restart m ≡ exits 1 n)
  unfolding stop_or_restart run_system
  stop_or_restart-exits true m = (_, refl)
  stop_or_restart-exits false m = (m, refl)

  -- panic ends the process with status 1, whether or not the log opens and whether or not the
  -- bootloader is started again.
  pub panic-exits :
      (reason : Text) (m : Machine S) → (n : Machine S) × (panic host reason m ≡ exits 1 n)
  unfolding panic
  panic-exits reason m = rw (log_to_file-eq _ _) (stop_or_restart-exits _ _)

  -- Where the flag for a restart is not set, std::cout has not failed and the log opens, the log file grows by exactly what
  -- is printed, and nothing else is printed.
  pub panic-logs :
      (laws : FileLaws host.os) (reason : Text) (m : Machine S) (s : S)
      → m.restart_after_panic ≡ false
      → m.cout_failed ≡ false
      → host.open_append m.files log_name ≡ some s
      → let info = panic_info host.symbols reason in
        (n : Machine S) × (panic host reason m ≡ exits 1 n)
        × (n.out ≡ m.out ++ info)
        × (host.read n.files log_name ≡ some (contents (host.read m.files log_name) ++ info))
  unfolding panic stop_or_restart
  panic-logs laws reason m s flag works opens = (
    put_files (host.write s log_name (panic_info host.symbols reason))
        (put_out (panic_info host.symbols reason) m),
    rw (log_to_file-eq _ _, opens, flag),
    rw works,
    laws.read-write s log_name _ _ (laws.read-open_append m.files s log_name opens),
  )

  -- The machine that an oops leaves before its count is looked at.
  abbrev reported : Text → Machine S → Machine S
  reported reason m =
      let info = oops_info host.symbols reason in
      logged info (put_out info (record m { oops_count = m.oops_count + 1 }))

  count-reported :
      (reason : Text) (m : Machine S) → (reported reason m).oops_count ≡ m.oops_count + 1
  count-reported reason m = (count-logged _ _).0

  oops-eq :
      (reason : Text) (m : Machine S)
      → oops host reason m
        ≡ (if leb 10 (m.oops_count + 1)
              then panic host (codes "too many oopses: " ++ reason)
              else skip)
            (reported reason m)
  unfolding oops
  oops-eq reason m = rw (log_to_file-eq _ _, (count-logged _ _).0)

  -- One oops after another, each with its reason.
  pub oopses : List Text → M S (Unit {0})
  oopses [] = skip
  oopses (reason ∷ reasons) = oops host reason >> oopses reasons

  -- Up to a count of nine every call returns, and counts.
  oopses-returns :
      (reasons : List Text) (m : Machine S)
      → m.oops_count + length reasons < 10
      → (n : Machine S) × (oopses reasons m ≡ returns tt n)
        × (n.oops_count ≡ m.oops_count + length reasons)
  unfolding oopses
  oopses-returns [] m few = (m, refl, omega arith)
  oopses-returns (reason ∷ reasons) m few =
      let here = count-reported reason m in
      let (n, e, count) = oopses-returns reasons (reported reason m) (omega (arith, here)) in
      (
        n,
        rw (oops-eq reason m, below 10 (m.oops_count + 1) (omega arith)) e,
        omega (arith, here, count),
      )

  -- The call that brings the count to ten.
  oopses-tenth :
      (before after : List Text) (reason : Text) (m : Machine S)
      → m.oops_count + length before ≡ 9
      → (n : Machine S) × (oopses (before ++ reason ∷ after) m ≡ exits 1 n)
  unfolding oopses
  oopses-tenth [] after reason m count =
      let (n, stops) = panic-exits (codes "too many oopses: " ++ reason) (reported reason m) in
      let tenth : leb 10 (m.oops_count + 1) ≡ true = ground arith in
      (n, rw (oops-eq reason m, tenth, stops))
  oopses-tenth (other ∷ before) after reason m count =
      let here = count-reported other m in
      let (n, stops) = oopses-tenth before after reason (reported other m) (omega (arith, here)) in
      (n, rw (oops-eq other m, below 10 (m.oops_count + 1) (omega arith)) stops)

  -- The calls that bring the count to nine all return; the one behind them ends the process with
  -- status 1, and those after it are not made.
  pub oopses-exits :
      (before after : List Text) (reason : Text) (m : Machine S)
      → m.oops_count + length before ≡ 9
      → (n k : Machine S) × (oopses before m ≡ returns tt n)
        × (n.oops_count ≡ 9)
        × (oopses (before ++ reason ∷ after) m ≡ exits 1 k)
  oopses-exits before after reason m count =
      let (n, e, same) = oopses-returns before m (omega arith) in
      let (k, stops) = oopses-tenth before after reason m count in (n, k, e, same ∙ count, stops)

  pub panic-IsTotal : (reason : Text) → IsTotal (panic host reason)
  panic-IsTotal reason = record { at = λ m. rw (panic-exits reason m).1 tt }

  oops-Finishes : (reason : Text) (m : Machine S) → Finishes (oops host reason m)
  oops-Finishes reason m = rw (oops-eq reason m) (elim (Bool-cases (leb 10 (m.oops_count + 1))) [
    | inl tenth ↦ rw tenth ((panic-IsTotal _).at (reported reason m))
    | inr before ↦ rw before tt
  ])

  pub oops-IsTotal : (reason : Text) → IsTotal (oops host reason)
  oops-IsTotal reason = record { at = oops-Finishes reason }
