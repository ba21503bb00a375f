-- ===== src/Lib.antt =====
-- Lunix, a simulated UNIX system in a terminal, as a model of its C++ sources.
--
-- The program's parts. main (lunix-sys/main.cpp) makes a kernel object and starts it
-- (lunix-sys/kernel/kernel/kernel.cpp): the kernel refuses user ID 0, asks the disk
-- (lunix-sys/kernel/disk/disk.cpp) to mount the root file system, tests the network and the disk,
-- and runs the shell (lunix-sys/kernel/lsh.cpp). The shell has the user manager
-- (lunix-sys/kernel/security/userman.cpp) log a user in, then reads lines and runs a branch for
-- each. Panics, oopses and signals go through the error handler
-- (lunix-sys/kernel/kernel/error_handler.cpp). The bootloader (lunix-bl/main.cpp) is a program of
-- its own, which starts the kernel.
--
-- Which file models which part.
--   Stream: std::getline, operator>> and ignore on the bytes still to come. Stream.Lines has what
--     a loop over getline meets.
--   Hex: the digits of UserManager::hashPassword.
--   Os: what the sources ask of the files, an interface over a state of the system.
--   Security: userman.cpp. find_entry and search_file are the loop of authenticate; login_attempts
--     is the loop of initialize. Accounts is the abstract store that the files are compared with.
--   Machine: the globals of the process, and the ways for a call to end: it returns, throws, ends
--     the process, or is still running.
--   Color: color.h. ErrorHandler: error_handler.cpp. Disk: disk.cpp, with its std::fstream in
--     Disk.Streams.
--   Lsh: lsh.cpp. Command.classify is the chain of tests of lshStart on a line, Manual is printHelp
--     and man, Files is catFile, simpleEditor and listFiles, Branches is what the lines run, and
--     Shell is the loop, with the server and the client as the interface Net.
--   Kernel: kernel.cpp, network.cpp and main.cpp. Runlevel is crl and crlrq,
--     Dexec is dexec, Start is the rest. Process puts main, the shell and the network together, with
--     the destructor of the global server that the end of the process runs.
--   Server: lunix-sys/kernel/net/lisp/server/server.cpp. turn is a round of the loop of
--     handleClient, serve the loop over what the reads give, handle_client the thread. Run is run
--     and getPrivateIP. Threads is the interleaving of the threads with accept and stop, as a step
--     relation on the server and the threads; Reach is what a start can lead to, and further starts
--     when no thread is left.
--   Client: lunix-sys/kernel/net/lisp/client/client.cpp. typist_step is a step of the thread of
--     connectToServer, receiver_step one of receiveMessages, chat_steps both under a schedule.
--   Lisp: a client and a thread of the server on one connection, the server's sends against the
--     client's reads.
--   Lsh.Network puts Server and Client behind the interface Net.
--   Bootloader: lunix-bl/main.cpp, with Bootloader.Color for its color.h. update_all is the loop of
--     computeSHA256, compare_hashes the try block of main, launch what main does after fork.
--   Kernel.Clean is about a session in which nothing fails, Kernel.Granting about one in which root
--     makes accounts, Kernel.NextBoot about the one behind it, Kernel.FirstBoot about the first of
--     all, Kernel.LockedOut about three failed logins; Lsh.Script has what the shell does with such
--     lines, Kernel.Booting what main does around it.
--   The modules named Steady are about what a call leaves of the session, those named Total and
--     Ending about how calls end, and those named Closing about inputs whose last line is ":wq!",
--     the line that closes the editor: Stream.Closing, Machine.Closing and so on up to
--     Kernel.Closing, from the calls of std::istream to main.
--   Tests: runs at concrete inputs.
--
-- State. A Machine holds a Console (the files, the input, the logged-in user, what the terminal
-- shows and whether it echoes), the counter of oopses and the flag for a restart, and two
-- runlevels: one of the kernel that main makes, one of the global kernel of disk.cpp. A text is the
-- list of its bytes.
--
-- Outside the sources. The operating system, SHA256, backtrace_symbols, system, and fork with
-- execvp and waitpid are the record Host, an argument of every definition. What is relied on is
-- FileLaws (what is appended to a file is read back) and Sha256Laws (a digest is 32 bytes).
--
-- Fuel. The loop of authenticate gets one round more than the file has bytes, which is enough for
-- every file; the loop of computeSHA256 has the same. rootfs, the editor and the shell are loops on
-- the terminal that may run for ever: where the fuel is used up they give `spent`. The loop of run
-- takes what each test of `running` finds, the chat of the client the order of its two threads: where
-- these lists end, run is still running and connectToServer gives `spent`.
--
-- Not modelled: in a process, the threads that "server start" makes, which are in Server.Threads
-- and Server.Run by themselves, though an exception in one of them ends the process; the signal
-- that a send on a connection that its peer has closed brings (SIGPIPE, which ends the process);
-- a read that waits for ever for its peer, but for the threads of Server.Threads; what a child that
-- cannot execute its program does in exit, beyond its status and the state that the host gives; and
-- the exception of current_path where the working directory has been removed. Further: the pause between two logins, reads that fill a whole buffer of the network, the
-- interleaving of a server that is started again with threads of the run before (accept may give out
-- their sockets, which stop has closed), what programs that the shell starts take of its input, and
-- what the C++ runtime prints when it aborts. The sockets of the
-- server and of the client, the calls that make a socket listen, and the system under the bootloader
-- are parameters of their own.
pub mod Base
pub mod Stream
pub mod Hex
pub mod Os
pub mod Security
pub mod Machine
pub mod Color
pub mod ErrorHandler
pub mod Disk
pub mod Tests
pub mod Lsh
pub mod Server
pub mod Client
pub mod Bootloader
pub mod Kernel
pub mod Lisp
