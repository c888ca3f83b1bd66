-- ===== src/Exec/GasPool.antt =====
-- common/utils/gaspool.go: the gas that is left in a block, a uint64.
use uranus.Prelude.{
  ℕ, ◌+◌, ◌-◌, ◌^◌, ◌<◌, ◌≤◌, ◌≡◌, Option, none, some, ltb, if◌then◌else◌, Result, ok, panic,
  gas_overflow, arith,
}

abbrev pub max_uint64 : ℕ
max_uint64 = 2 ^ 64 - 1

-- The panic is "gas pool pushed above uint64". The subtraction of the source cannot wrap.
unfoldable pub add_gas : ℕ → ℕ → Result ℕ
add_gas amount gp = if ltb (max_uint64 - amount) gp then panic gas_overflow else ok (gp + amount)

-- `none` is ErrGasLimitReached.
unfoldable pub sub_gas : ℕ → ℕ → Option ℕ
sub_gas amount gp = if ltb gp amount then none else some (gp - amount)

-- Gas that was taken from a pool can be given back in any smaller amount, without a panic, and the
-- pool has then lost the difference.
pub add_gas-sub_gas :
    (gp amount back gp' : ℕ)
    → gp < 2 ^ 64
    → sub_gas amount gp ≡ some gp'
    → back ≤ amount
    → add_gas back gp' ≡ ok (gp - (amount - back))
unfolding add_gas sub_gas
add_gas-sub_gas gp amount back gp' w h le = ground arith
