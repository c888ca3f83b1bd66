-- ===== src/Consensus.antt =====
-- consensus/dpos: which validator makes a block, which blocks are confirmed, and how the weights of
-- the validators change.
pub mod Schedule
pub mod Confirmed
pub mod Irreversible
pub mod Weights
pub mod Election
pub mod Elected
pub mod Votes
pub mod Tests
