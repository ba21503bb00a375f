-- ===== src/Lsh.antt =====
-- lsh.h and lsh.cpp: the shell. Command sorts a line, Manual, Files and Branches are what the
-- lines run, and Shell is the loop. Session, Editor, Arguments, Passwd, Removal, Script,
-- Forgery and Handed are about them.
pub mod Command
pub mod Manual
pub mod Files
pub mod Branches
pub mod Shell
pub mod Steady
pub mod Session
pub mod Closing
pub mod Network
pub mod Editor
pub mod Arguments
pub mod Passwd
pub mod Removal
pub mod Script
pub mod Forgery
pub mod Handed
