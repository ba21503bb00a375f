-- ===== src/Kernel/Process.antt =====
-- The process from main to the destructor of the global server of lsh.cpp, which the end runs.
use lunix.Base.{ℕ, ◌≡◌, false, List, arith}
use lunix.Base.Text.{Text}
use lunix.Machine.{Machine, Host, Run, returns, throws, exits, spent, put_files}
use lunix.Server.{Sockets, Server, destroy_server}
use lunix.Client.{Connector, Thread}
use lunix.Lsh.Network.{Globals, terminal_net}
use lunix.Kernel.Start.{main}
use lunix.Kernel.Ending.{Exits, main-Exits}

module _ {S N : Type 0} (globals : Globals S N) (sockets : Sockets N) where
  -- The global server is destroyed.
  abbrev destroyed : Machine S → Machine S
  destroyed m =
      put_files (globals.put_server (destroy_server sockets (globals.server m.files)) m.files) m

  -- exit and a return from main destroy the global objects: of these the server does something.
  at_exit : Run S (Unit {0}) → Run S (Unit {0})
  at_exit (exits n m) = exits n (destroyed m)
  at_exit (returns a m) = returns a (destroyed m)
  at_exit (throws m) = throws m
  at_exit spent = spent

  -- The threads that "server start" makes are not in it: start and stop change the server and its
  -- network, and Server.Threads has the threads.
  pub process : Host S → Connector S → List Thread → ℕ → Machine S → Run S (Unit {0})
  process host connector schedule fuel m =
      at_exit (main host (terminal_net globals sockets connector schedule) fuel m)

  destroy_server-running : (s : Server N) → (destroy_server sockets s).running ≡ false
  unfolding destroy_server
  destroy_server-running s = ground arith

  -- The process, if it ends, is ended by exit, with the server stopped.
  abbrev pub IsDown : Run S (Unit {0}) → Type 0
  IsDown (returns a m) = ⊥
  IsDown (throws m) = ⊥
  IsDown (exits n m) = (globals.server m.files).running ≡ false
  IsDown spent = Unit {0}

  module _ (put : (s : S) (t : Server N) → globals.server (globals.put_server t s) ≡ t) where
    at_exit-IsDown : (r : Run S (Unit {0})) → Exits r → IsDown (at_exit r)
    unfolding at_exit
    at_exit-IsDown (returns a m) h = h
    at_exit-IsDown (throws m) h = h
    at_exit-IsDown (exits n m) h = rw put (destroy_server-running (globals.server m.files))
    at_exit-IsDown spent h = tt

    -- In a state that gives back the server that is put into it, where "server start" makes no thread
    -- and no signal comes from outside: the process never falls off the end of main and
    -- never dies of an exception. Whatever is typed, whatever its host does and whatever the peer of
    -- the client sends, if it ends it ends by a call of exit, and the server is then not running.
    pub process-IsDown :
        (host : Host S) (connector : Connector S) (schedule : List Thread) (fuel : ℕ)
        (m : Machine S)
        → IsDown (process host connector schedule fuel m)
    unfolding process
    process-IsDown host connector schedule fuel m =
        at_exit-IsDown _ (main-Exits host (terminal_net globals sockets connector schedule) fuel m)
