-- ===== src/State.antt =====
-- core/state: the journalled account state.
pub mod Object
pub mod Db
pub mod Ops
pub mod Journal
pub mod Run
pub mod Getters
pub mod Accounts
pub mod View
pub mod Revert
pub mod Finalise
pub mod Tests
