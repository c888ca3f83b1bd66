-- ===== src/Dpos.antt =====
-- core/types/dposcontext.go: candidates, their delegators and the votes.
pub mod Context
pub mod Run
pub mod Validators
mod Tries
mod Relinked
pub mod Kickout
pub mod Keeps
pub mod Tests
