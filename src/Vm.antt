-- ===== src/Vm.antt =====
-- core/vm: the EVM's memory and what its growth costs, the checks of the stack's height, and the gas
-- of a call.
pub mod Memory
pub mod Growth
pub mod Stack
pub mod Heights
pub mod Calls
pub mod Tests
