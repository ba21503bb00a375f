-- ===== src/Kernel.antt =====
-- kernel.h, kernel.cpp, network.cpp and main.cpp. Runlevel is what the shell asks of the kernel,
-- Start is the process around the shell, Ending is about how that ends. Clean is about a session
-- that ends well, Granting about one in which root makes accounts, NextBoot about the one behind it,
-- FirstBoot about the first of all, LockedOut about one that does not get to the shell.
pub mod Runlevel
pub mod Start
pub mod Ending
pub mod Dexec
pub mod Closing
pub mod Booting
pub mod Clean
pub mod Granting
pub mod NextBoot
pub mod FirstBoot
pub mod LockedOut
pub mod Process
