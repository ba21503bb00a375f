-- ===== src/Lsh/Command.antt =====
-- The tests of lsh::lshStart on a line, in their order.
use lunix.Base.{ltb, if◌then◌else◌, ◌||◌, take, drop, length, [], Option}
use lunix.Base.Text.{Text, codes, text_eq, substr}

-- What a line asks for, with what the branch cuts off it. `passwd none` is the exception of
-- command.substr(7) on a shorter line.
pub data Command : Type 0 where
  quit blank help pwd rl clear ver panic : Command
  server_start server_stop client_ping client_connect mod_usage : Command
  man cd ls mkdir cat editor rm rm_r run mod_name not_found : Text → Command
  -- nano and chmod, with the whole line
  shell : Text → Command
  passwd : Option Text → Command

-- The argument of rm, and whether it is recursive.
abbrev rm_command : Text → Command
rm_command args = if text_eq (take 3 args) (codes "-R ") then rm_r (drop 3 args) else rm args

-- The first half of the chain of tests, and what comes after it.
abbrev first_tests : Text → Command → Command
first_tests command others =
    if text_eq command (codes "shutdown") || text_eq command (codes "exit")
    then quit
    else if text_eq command []
    then blank
    else if text_eq command (codes "help")
    then help
    else if text_eq (take 4 command) (codes "man ")
    then man (drop 4 command)
    else if text_eq (take 3 command) (codes "cd ")
    then cd (drop 3 command)
    else if text_eq command (codes "pwd")
    then pwd
    else if text_eq (take 2 command) (codes "ls")
    then ls (if ltb 3 (length command) then drop 3 command else codes ".")
    else if text_eq (take 6 command) (codes "mkdir ")
    then mkdir (drop 6 command)
    else if text_eq (take 4 command) (codes "cat ")
    then cat (drop 4 command)
    else if text_eq (take 7 command) (codes "editor ")
    then editor (drop 7 command)
    else if text_eq (take 4 command) (codes "nano")
    then shell command
    else if text_eq (take 5 command) (codes "chmod")
    then shell command
    else others

abbrev last_tests : Text → Command
last_tests command =
    if text_eq (take 2 command) (codes "rl")
    then rl
    else if text_eq (take 3 command) (codes "rm ")
    then rm_command (drop 3 command)
    else if text_eq command (codes "clear")
    then clear
    else if text_eq command (codes "ver")
    then ver
    else if text_eq (take 2 command) (codes "./")
    then run command
    else if text_eq command (codes "panic")
    then panic
    else if text_eq (take 6 command) (codes "passwd")
    then passwd (substr command 7)
    else if text_eq command (codes "server start")
    then server_start
    else if text_eq command (codes "server stop")
    then server_stop
    else if text_eq command (codes "client ping")
    then client_ping
    else if text_eq command (codes "client connect")
    then client_connect
    else if text_eq (take 3 command) (codes "mod")
    then (if ltb (length command) 4 then mod_usage else mod_name (drop 4 command))
    else not_found command

unfoldable pub classify : Text → Command
classify command = first_tests command (last_tests command)
