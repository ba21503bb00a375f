-- ===== src/Lsh/Session.antt =====
-- The shell's session: no line changes who is logged in, or a runlevel.
use lunix.Base.{ℕ, zero, suc, ◌≡◌, true, []}
use lunix.Base.Text.{endl, Text}
use lunix.Base.Int.{pos}
use lunix.Security.{initialize, Console}
use lunix.Stream.{newline, getline, Stream}
use lunix.Machine.{pure, ◌>>◌, Host, M, Machine}
use lunix.Machine.Ends.{Ends-imp, Ends}
use lunix.Machine.Steady.{
  IsSteady-pure, IsSteady-if, IsSteady-print, IsSteady-then, IsSteady-skip, IsSteady, Same,
}
use lunix.Kernel.Runlevel.{crlrq}
use lunix.Lsh.Command.{Command, classify}
use lunix.Lsh.Shell.{lsh_start, Net, after_command, take_command, lsh_loop}
use lunix.Lsh.Steady.{SteadyNet, execute-IsSteady, IsSteady-input}

module _ {S : Type 0} (host : Host S) (net : Net S) (steady : SteadyNet net) where
  after_command-IsSteady :
      (fuel : ℕ) (command : Command) (more : M S (Unit {0}))
      → IsSteady more
      → IsSteady (after_command host net fuel command more)
  after_command-IsSteady fuel Command.quit more h = IsSteady-skip
  after_command-IsSteady fuel command more h =
      IsSteady-then _ more (execute-IsSteady host net steady fuel command) h

  take_command-IsSteady :
      (fuel : ℕ) (more : M S (Unit {0})) (read : Text × Stream)
      → IsSteady more
      → IsSteady (take_command host net fuel more read)
  take_command-IsSteady fuel more (command, input') h =
      unfold take_command in
      IsSteady-then _ _ (IsSteady-input host input') (
        IsSteady-if input'.fail _ _ (IsSteady-print endl)
          (after_command-IsSteady fuel (classify command) more h))

  -- Whatever is typed, and however the loop ends, a steady network leaves the session with the
  -- user who logged in and with the runlevels that it had.
  lsh_loop-Same :
      (fuel : ℕ) (root : Text) (m : Machine S) → Ends (Same m) (lsh_loop host net fuel root m)
  unfolding lsh_loop
  lsh_loop-Same zero root m = tt
  lsh_loop-Same (suc fuel) root m =
      (IsSteady-then _ _ (IsSteady-print _) (
          take_command-IsSteady fuel (lsh_loop host net fuel root) (getline newline [] m.input)
            (record { at = lsh_loop-Same fuel root }))).at
        m

  lsh_loop-IsSteady : (fuel : ℕ) (root : Text) → IsSteady (lsh_loop host net fuel root)
  lsh_loop-IsSteady fuel root = record { at = lsh_loop-Same fuel root }

  session_end :
      {A : Type 0} (c : M S A) (m : Machine S)
      → IsSteady c
      → Ends
          (λ n.
            (n.users ≡ m.users) × (n.runlevel ≡ m.runlevel) × (n.boot_runlevel ≡ m.boot_runlevel))
          (c m)
  session_end c m h =
      Ends-imp (Same m) _ (c m) (λ n same. (same.users, same.runlevel, same.boot_runlevel)) (h.at m)

  -- Where the login succeeds, lshStart keeps its user and the global runlevel 4 to its end, and
  -- never sets the runlevel of the kernel that main started.
  pub lsh_start-session :
      (fuel : ℕ) (m : Machine S) (c : Console S)
      → initialize host.os host.sha256 m.console ≡ (true, c)
      → Ends
          (λ n. (n.users ≡ c.users) × (n.runlevel ≡ 4) × (n.boot_runlevel ≡ m.boot_runlevel))
          (lsh_start host net fuel m)
  unfolding lsh_start crlrq
  lsh_start-session fuel m c logged = rw logged (
      session_end (lsh_loop host net fuel _ >> pure (pos 0)) _
        (IsSteady-then _ _ (lsh_loop-IsSteady fuel _) (IsSteady-pure (pos 0))))
