-- ===== src/State/Revert.antt =====
-- RevertToSnapshot restores what Snapshot saw.
mod Views
mod Congruence
mod Steps
mod Creation
mod Operations
mod Others
mod Reads
mod Nested
mod Since
pub mod Restores
pub mod Once
pub mod Accounts
pub mod Unjournaled
