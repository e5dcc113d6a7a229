-- ===== src/Nft.antt =====
-- src/nft.rs, built for Linux: the rules for the tunnels, the script that installs them, and the
-- manager of the table. Proofs are in the modules named for what they prove.
pub mod Names
pub mod Ruleset
pub mod Rules
pub mod Targets
pub mod Forwarding
pub mod Script
pub mod Cli
pub mod Manager
pub mod Tables
pub mod Tracking
pub mod LostTable
