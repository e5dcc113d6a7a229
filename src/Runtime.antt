-- ===== src/Runtime.antt =====
-- src/runtime.rs: the tasks of the asynchronous runtime and the sockets that they serve, one running
-- tunnel, the manager that starts and stops tunnels, and the loop that follows the configuration.
pub mod System
pub mod Tunnel
pub mod Manager
pub mod Tasks
pub mod Ownership
pub mod Starting
pub mod Loop
pub mod Removal
pub mod Convergence
pub mod Stability
pub mod Unordered
pub mod Shutdown
pub mod Stopping
pub mod Interrupted
pub mod History
pub mod Signal
pub mod Relay
pub mod Watcher
