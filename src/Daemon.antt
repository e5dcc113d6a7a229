-- ===== src/Daemon.antt =====
-- src/main.rs: the choice of the command, the PID file, the recognition of the daemon's process, the
-- commands that start, stop and report on it, and its worker, built for Linux.
pub mod Pid
pub mod Cmdline
pub mod RoundTrip
pub mod Safety
pub mod Splitting
pub mod Recognition
pub mod OtherUnix
pub mod Control
pub mod Entry
pub mod Worker
pub mod Frame
