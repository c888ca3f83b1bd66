-- ===== src/Exec.antt =====
-- core/executor: the execution of transactions.
pub mod GasPool
pub mod IntrinsicGas
pub mod Transition
pub mod Message
pub mod Tests
