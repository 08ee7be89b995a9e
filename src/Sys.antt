-- ===== src/Sys.antt =====
-- src/kernel/sys, the system calls.
pub mod Pipe
pub mod PipeCall
pub mod Signal
