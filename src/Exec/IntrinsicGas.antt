-- ===== src/Exec/IntrinsicGas.antt =====
-- IntrinsicGas of core/txpool/utils.go, with the prices of params/protocol.go.
use uranus.Prelude.{
  ℕ, ◌+◌, ◌-◌, ◌*◌, ◌/◌, ◌^◌, ◌<◌, ◌≤◌, ◌≡◌, Bool, true, false, Option, none, some, List, [], ◌∷◌,
  length, ltb, ◌==◌, if◌then◌else◌, arith, inl, inr, Bool-cases,
}
use uranus.Exec.GasPool.{max_uint64}

-- TxType of core/types/transaction.go; `unknown` is any other value.
pub data TxType : Type 0 where
  binary login_candidate logout_candidate delegate undelegate redeem unknown : TxType

abbrev pub is_vote : TxType → Bool
is_vote delegate = true
is_vote undelegate = true
is_vote _ = false

abbrev pub tx_gas : ℕ
tx_gas = 21000

abbrev pub tx_gas_contract_creation : ℕ
tx_gas_contract_creation = 53000

abbrev pub tx_data_zero_gas : ℕ
tx_data_zero_gas = 4

abbrev pub tx_data_non_zero_gas : ℕ
tx_data_non_zero_gas = 68

-- The loop over the bytes.
unfoldable pub count_nonzero : ℕ → List ℕ → ℕ
count_nonzero nz [] = nz
count_nonzero nz (byt ∷ bytes) = count_nonzero (if byt == 0 then nz else nz + 1) bytes

-- The gas of the bytes on top of `gas`; `none` is ErrOutOfGas.
unfoldable pub data_gas : ℕ → ℕ → ℕ → Option ℕ
data_gas gas nz len =
    if ltb ((max_uint64 - gas) / tx_data_non_zero_gas) nz
    then none
    else let gas1 = gas + nz * tx_data_non_zero_gas in
      let z = len - nz in
      if ltb ((max_uint64 - gas1) / tx_data_zero_gas) z
      then none
      else some (gas1 + z * tx_data_zero_gas)

unfoldable pub intrinsic_gas : List ℕ → TxType → Bool → Option ℕ
unfolding data_gas count_nonzero
intrinsic_gas bytes tp contract_creation =
    if is_vote tp
    then some 0
    else let gas = if contract_creation then tx_gas_contract_creation else tx_gas in
      if ltb 0 (length bytes) then data_gas gas (count_nonzero 0 bytes) (length bytes) else some gas

-- What the bytes cost, one by one.
unfoldable pub byte_cost : List ℕ → ℕ
byte_cost [] = 0
byte_cost (byt ∷ bytes) =
    (if byt == 0 then tx_data_zero_gas else tx_data_non_zero_gas) + byte_cost bytes

count_nonzero-byte_cost :
    (nz : ℕ) (bytes : List ℕ)
    → (nz ≤ count_nonzero nz bytes)
      × (count_nonzero nz bytes ≤ nz + length bytes)
      × (byte_cost bytes + 64 * nz ≡ 4 * length bytes + 64 * count_nonzero nz bytes)
unfolding count_nonzero byte_cost
count_nonzero-byte_cost nz [] = (omega arith, omega arith, omega arith)
count_nonzero-byte_cost nz (byt ∷ bytes) = elim (Bool-cases (byt == 0)) [
  | inl e ↦ rw e (omega (arith, count_nonzero-byte_cost nz bytes))
  | inr e ↦ rw e (omega (arith, count_nonzero-byte_cost (nz + 1) bytes))
]

data_gas-sum :
    (gas nz len cost : ℕ)
    → gas < 2 ^ 64
    → nz ≤ len
    → cost ≡ 4 * len + 64 * nz
    → data_gas gas nz len ≡ (if ltb (gas + cost) (2 ^ 64) then some (gas + cost) else none)
unfolding data_gas
data_gas-sum gas nz len cost g h e = ground arith

-- The gas of a transaction that is no vote is the base price and the price of each byte, as a plain
-- sum, exactly when that sum is a uint64; otherwise the error is returned.
pub intrinsic_gas-sum :
    (bytes : List ℕ) (tp : TxType) (creation : Bool)
    → is_vote tp ≡ false
    → intrinsic_gas bytes tp creation ≡ (
        if ltb ((if creation then tx_gas_contract_creation else tx_gas) + byte_cost bytes) (2 ^ 64)
        then some ((if creation then tx_gas_contract_creation else tx_gas) + byte_cost bytes)
        else none)
unfolding intrinsic_gas byte_cost
intrinsic_gas-sum [] tp creation h = ground arith
intrinsic_gas-sum (byt ∷ bytes) tp creation h =
    let some_bytes : ltb 0 (length (byt ∷ bytes)) ≡ true = ground arith in
    rw (h, some_bytes)
      (data_gas-sum (if creation then tx_gas_contract_creation else tx_gas)
        (count_nonzero 0 (byt ∷ bytes)) (length (byt ∷ bytes)) (byte_cost (byt ∷ bytes))
        (ground arith) (omega (arith, count_nonzero-byte_cost 0 (byt ∷ bytes)))
        (omega (arith, count_nonzero-byte_cost 0 (byt ∷ bytes))))
