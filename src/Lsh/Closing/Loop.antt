-- ===== src/Lsh/Closing/Loop.antt =====
-- The loop of lsh::lshStart on an input whose last line is ":wq!".
use lunix.Base.{if_intro, refl, ◌-◌, ◌≤◌, [], arith, inl, inr, ◌<◌, ℕ, zero, suc}
use lunix.Base.Text.{Text, text_eq-true}
use lunix.Stream.{Stream, newline, getline}
use lunix.Stream.Closing.{Whole-le, left}
use lunix.Stream.Closing.Reads.{getline-Whole}
use lunix.Stream.Closing.Words.{Whole-Loose}
use lunix.Stream.Closing.Turns.{Next, last_line, empty_line, followed, getline-Turn}
use lunix.Machine.{put_out, Machine, Host, M, put_input}
use lunix.Machine.Closing.{IsClosing, Settles, closing_rules, Settles-continue}
use lunix.Lsh.Command.{Command, classify}
use lunix.Lsh.Branches.{prompt}
use lunix.Lsh.Editor.{quit_line}
use lunix.Lsh.Shell.{after_command, take_command, lsh_loop, Net, execute}
use lunix.Security.{initialize}
use lunix.Security.Closing.{initialize-Whole}
use lunix.Kernel.Runlevel.{crlrq}
use lunix.Lsh.Shell.{log_in, lsh_start}
use lunix.Lsh.Closing.{AfterWord, IsWhole, ClosingNet}
use lunix.Lsh.Closing.Commands.{plain-Settles, execute-Settles}

module _ {S : Type 0} (host : Host S) (net : Net S) (closing : ClosingNet net) where
  after_command-Settles :
      (fuel j k : ℕ) (command : Command) (more : M S (Unit {0})) (m : Machine S)
      → AfterWord k m.input
      → Settles (λ n. AfterWord j n.input) (execute host net fuel command m)
      → ((n : Machine S) → AfterWord j n.input → Settles (λ o. AfterWord k o.input) (more n))
      → Settles (λ o. AfterWord k o.input) (after_command host net fuel command more m)
  after_command-Settles fuel j k Command.quit more m w h on = w
  after_command-Settles fuel j k command more m w h on =
      Settles-continue (λ n. AfterWord j n.input) (λ o. AfterWord k o.input) _ _ h (λ a. on)

  -- A line that has been read: ":wq!" is no command, an empty one is none either, and behind any
  -- other one another comes.
  command-Settles :
      (fuel j : ℕ) (line : Text) (m : Machine S)
      → Next quit_line line (left m.input)
      → IsWhole j m.input
      → j < fuel
      → Settles (λ n. AfterWord j n.input) (execute host net fuel (classify line) m)
  command-Settles fuel j line m (last_line end) h enough =
      rw (text_eq-true line quit_line end)
        (plain-Settles host net closing fuel j (classify quit_line) m (unfold classify in refl) h)
  command-Settles fuel j line m (empty_line e) h enough =
      rw e (plain-Settles host net closing fuel j (classify []) m (unfold classify in refl) h)
  command-Settles fuel j line m (followed e) h enough =
      execute-Settles host net closing fuel j (classify line) m
        (record { closed = e; short = h.short }) enough

  lsh_loop-Settles :
      (fuel j k : ℕ) (root : Text) (m : Machine S)
      → AfterWord j m.input
      → j < fuel
      → j ≤ k
      → Settles (λ n. AfterWord k n.input) (lsh_loop host net fuel root m)
  unfolding lsh_loop take_command
  lsh_loop-Settles zero j k root m h enough le = absurd (omega arith)
  lsh_loop-Settles (suc fuel) j k root m h enough le =
      let more = lsh_loop host net fuel root in
      let line = (getline newline [] m.input).0 in
      let input' = (getline newline [] m.input).1 in
      let n : Machine S = put_input input' (put_out (prompt host root m) m) in
      let w =
        Whole-Loose quit_line
          (Whole-le quit_line k (getline-Whole quit_line j [] m.input h.within) le) in
      elim (getline-Turn quit_line j [] m.input h) [
        | inl (failed, e) ↦ rw failed w
        | inr read ↦
            if_intro (λ (c : M S (Unit {0})). Settles (λ o. AfterWord k o.input) (c n)) input'.fail
              _ _ (λ e. w)
              (λ e.
                after_command-Settles fuel (j - 1) k (classify line) more n w
                  (command-Settles fuel (j - 1) line n read.next
                    (record { closed = read.closed; short = omega (arith, read.shorter) })
                    (omega (arith, read.shorter)))
                  (λ o held.
                    lsh_loop-Settles fuel (j - 1) k root o held (omega (arith, read.shorter))
                      (omega arith)))
      ]

  -- With more fuel than there are bytes to come the loop ends.
  pub lsh_loop-IsClosing :
      (fuel k : ℕ) (root : Text) → k < fuel → IsClosing (AfterWord k) (lsh_loop host net fuel root)
  lsh_loop-IsClosing fuel k root enough = record {
    at = λ m h. lsh_loop-Settles fuel k k root m h enough (omega arith);
  }

  crlrq-IsClosing : (Q : Stream → Type 0) (rl : ℕ) → IsClosing Q (crlrq {S = S} rl)
  unfolding crlrq
  crlrq-IsClosing Q rl = record { at = λ m h. h }

  log_in-IsClosing : (k : ℕ) → IsClosing (AfterWord k) (log_in host net)
  unfolding log_in
  log_in-IsClosing k = record {
    at = λ m h.
        let c = (initialize host.os host.sha256 m.console).1 in
        if_intro (Settles (λ n. AfterWord k n.input)) (initialize host.os host.sha256 m.console).0 _
          _
          (λ done.
            Whole-Loose quit_line
              (initialize-Whole host.os host.sha256 quit_line k m.console h.within))
          (λ failed. refl);
  }

  -- The login, the loop and the end of the shell.
  pub lsh_start-IsClosing :
      (fuel k : ℕ) → k < fuel → IsClosing (AfterWord k) (lsh_start host net fuel)
  lsh_start-IsClosing fuel k enough =
      unfold lsh_start in
      search (closing_rules, log_in-IsClosing, crlrq-IsClosing, lsh_loop-IsClosing) depth 14
