-- ===== src/Examples.antt =====
-- Runs of the definitions on concrete inputs, and the theorems applied to them.
pub mod Systems
mod Configs
mod Rules
mod Tunnels
mod Stopping
mod Interrupted
mod Watchers
mod Daemons
mod OtherUnix
mod Edits
mod Relays
mod Connections
mod Sessions
mod Versions
