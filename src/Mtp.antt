-- ===== src/Mtp.antt =====
-- common/mtp: the Merkle Patricia trie. The children model its nodes, the encodings of its keys
-- (util.go) and its operations (trie.go), and prove that a trie is a map from keys to values.
pub mod Node
pub mod Keys
pub mod Ops
pub mod Segments
pub mod Content
pub mod Becomes
pub mod Get
pub mod Insert
pub mod Reduce
pub mod Single
pub mod Delete
pub mod Map
pub mod Compact
pub mod Tests
