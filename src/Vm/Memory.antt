-- ===== src/Vm/Memory.antt =====
-- core/vm/memory.go, with memoryGasCost of gas_table.go, toWordSize and calcMemSize of common.go, and
-- the step of Interpreter.Run that grows the memory.
use uranus.Prelude.{
  ℕ, ◌+◌, ◌-◌, ◌*◌, ◌/◌, ◌%◌, ◌^◌, Option, none, some, ◌++◌, length, replicate, ltb, ◌==◌, ◌||◌,
  if◌then◌else◌,
}
use uranus.State.Object.{Bytes}
use uranus.Exec.GasPool.{max_uint64}

pub record Memory : Type 0 where
  pub store : Bytes
  pub last_gas_cost : ℕ

abbrev pub memory_gas : ℕ
memory_gas = 3

abbrev pub quad_coeff_div : ℕ
quad_coeff_div = 512

unfoldable pub to_word_size : ℕ → ℕ
to_word_size size = if ltb (max_uint64 - 31) size then max_uint64 / 32 + 1 else (size + 31) / 32

-- `Resize`
unfoldable pub resize : ℕ → Memory → Memory
resize size mem =
    if ltb (length mem.store) size
    then record mem { store = mem.store ++ replicate (size - length mem.store) 0 }
    else mem

-- The fee, and the memory with the total of its fees; `none` is errGasUintOverflow.
unfoldable pub memory_gas_cost : Memory → ℕ → Option (ℕ × Memory)
unfolding to_word_size
memory_gas_cost mem new_mem_size =
    if new_mem_size == 0
    then some (0, mem)
    else if ltb 0xffffffffe0 new_mem_size
    then none
    else let words = to_word_size new_mem_size in
      if ltb (length mem.store) (words * 32 % 2 ^ 64)
      then (let square = words * words % 2 ^ 64 in
          let total = (words * memory_gas % 2 ^ 64 + square / quad_coeff_div) % 2 ^ 64 in
          some
            ((total + 2 ^ 64 - mem.last_gas_cost) % 2 ^ 64, record mem { last_gas_cost = total }))
      else some (0, mem)

-- `UseGas`: the gas that is left, `none` where it is too little.
unfoldable pub use_gas : ℕ → ℕ → Option ℕ
use_gas cost gas = if ltb gas cost then none else some (gas - cost)

pub data VmError : Type 0 where
  gas_uint_overflow out_of_gas : VmError

-- How `Run` goes on after the growth of the memory: with the contract's gas and the memory, or out of
-- the loop with an error.
pub data Grown : Type 0 where
  grown : ℕ → Memory → Grown
  stopped : VmError → Grown

-- `Run` after the fee is known.
unfoldable pub charge : ℕ → ℕ → ℕ → Memory → Grown
unfolding use_gas
charge size gas fee mem = elim (use_gas fee gas) [
  | none ↦ stopped out_of_gas
  | some left ↦ grown left (if ltb 0 size then resize size mem else mem)
]

-- The growth of the memory in `Run`, for an operation that asks for `mem_size` bytes and whose gas is
-- that of the memory: the words that hold the bytes, their fee, the payment from the contract's gas,
-- and the resizing. An error of the fee is passed on as ErrOutOfGas.
unfoldable pub expand : ℕ → ℕ → Memory → Grown
unfolding charge
expand mem_size gas mem =
    if ltb max_uint64 mem_size || ltb max_uint64 (to_word_size mem_size * 32)
    then stopped gas_uint_overflow
    else elim (memory_gas_cost mem (to_word_size mem_size * 32)) [
      | none ↦ stopped out_of_gas
      | some (fee, mem1) ↦ charge (to_word_size mem_size * 32) gas fee mem1
    ]
