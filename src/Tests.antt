-- ===== src/Tests.antt =====
-- Runs of the definitions at concrete inputs, and instances of the theorems.
mod Host
mod Security
mod Kernel
mod Lsh
mod Granting
mod Process
mod Server
mod Threads
mod Client
mod Bootloader
