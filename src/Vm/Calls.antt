-- ===== src/Vm/Calls.antt =====
-- callGas of core/vm/gas.go: the gas that a call is given. The cost asked for is not negative.
use uranus.Prelude.{
  ℕ, ◌+◌, ◌-◌, ◌/◌, ◌%◌, ◌^◌, ◌<◌, ◌≤◌, ◌≡◌, ◌||◌, Option, none, some, ltb, if◌then◌else◌, arith,
  ◌⊎◌, inl, inr, refl, Bool-cases,
}
use uranus.Exec.GasPool.{max_uint64}

-- `Uint64` takes the lowest 64 bits. The first argument is CreateBySuicide of the gas table; `none` is errGasUintOverflow.
unfoldable pub call_gas : ℕ → ℕ → ℕ → ℕ → Option ℕ
call_gas create_by_suicide available base call_cost =
    let left = (available + 2 ^ 64 - base) % 2 ^ 64 in
    let gas = left - left / 64 in
    let plain = if ltb max_uint64 call_cost then none else some (call_cost % 2 ^ 64) in
    if ltb 0 create_by_suicide
    then if ltb max_uint64 call_cost || ltb gas (call_cost % 2 ^ 64) then some gas else plain
    else plain

-- A call gets what it asks for, unless that would leave the caller less than a 64th of what is left
-- after the base price; then it gets all but that 64th.
pub record IsGranted (available base call_cost gas : ℕ) : Type 0 where
  pub asked : gas ≤ call_cost
  pub kept : base + gas + (available - base) / 64 ≤ available
  pub most : (gas ≡ call_cost) ⊎ (base + gas + (available - base) / 64 ≡ available)

-- Where the gas table prices suicides that create an account and the base price is available,
-- callGas raises no error, however much is asked for: the gas of a call is never more than what is
-- asked for, leaves the caller a 64th of what is left after the base price, and is either what is
-- asked for or all but that 64th.
pub call_gas-IsGranted :
    (create_by_suicide available base call_cost : ℕ)
    → 0 < create_by_suicide
    → available < 2 ^ 64
    → base ≤ available
    → (gas : ℕ) × (call_gas create_by_suicide available base call_cost ≡ some gas)
      × IsGranted available base call_cost gas
unfolding call_gas
call_gas-IsGranted create_by_suicide available base call_cost s w h =
    let left = available - base in
    elim (Bool-cases (ltb (left - left / 64) call_cost)) [
      | inl more ↦ (
        left - left / 64,
        ground arith,
        record { asked = ground arith; kept = omega arith; most = inr (omega arith) },
      )
      | inr less ↦ (
        call_cost,
        ground arith,
        record { asked = omega arith; kept = ground arith; most = inl refl },
      )
    ]
