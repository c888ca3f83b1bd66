-- ===== src/Pool.antt =====
-- core/txpool: the lists in which the pool keeps an account's transactions. The children model the
-- nonce-sorted map and the list of list.go, and prove that they are lists sorted by nonce.
pub mod SortedMap
pub mod Sorting
pub mod Ordered
pub mod Refines
pub mod Loops
pub mod CapLoop
pub mod Steps
pub mod Run
pub mod TxList
pub mod Limits
pub mod Filtered
pub mod Accepts
pub mod Gapless
pub mod Strict
pub mod Tests
