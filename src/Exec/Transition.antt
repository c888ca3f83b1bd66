-- ===== src/Exec/Transition.antt =====
-- core/executor/stransition.go: the state transition of one transaction. The EVM is a parameter: what
-- Create and Call return, and the state that they leave.
pub mod Settlement
pub mod Checks
use uranus.Prelude.{
  ℕ, suc, ◌+◌, ◌-◌, ◌*◌, ◌/◌, ◌%◌, ◌^◌, ◌<◌, ◌≤◌, ◌≡◌, refl, Bool, true, false, Option, none, some,
  List, [], ◌∷◌, ltb, ◌==◌, if◌then◌else◌, arith, inl, inr, Bool-cases, Result, ok, panic,
  slice_bounds, ◌>>=◌,
}
use uranus.Prelude.Int.{ℤ, pos, ◌+ℤ◌, ◌-ℤ◌, ◌*ℤ◌, ltb_ℤ}
use uranus.State.Object.{Address, Bytes, Backend}
use uranus.State.Db.{StateDb}
use uranus.State.Ops.{add_balance, sub_balance, set_nonce}
use uranus.State.Getters.{get_balance, get_nonce}
use uranus.Exec.GasPool.{add_gas, sub_gas}
use uranus.Exec.IntrinsicGas.{TxType, intrinsic_gas}

-- core/types/transaction.go, without the signature and the caches
pub record Transaction : Type 0 where
  pub tx_type : TxType
  pub nonce : ℕ
  pub gas_price : ℤ
  pub gas_limit : ℕ
  pub tos : Option (List Address)
  pub value : ℤ
  pub payload : Bytes

pub data VmError : Type 0 where
  insufficient_balance : VmError
  other_vm_error : ℕ → VmError

-- ret, the gas that is left, the error and the state
pub record VmResult : Type 0 where
  pub ret : Bytes
  pub left_gas : ℕ
  pub vmerr : Option VmError
  pub state : StateDb

pub record Evm : Type 0 where
  pub coinbase : Address
  pub create : Address → Bytes → ℕ → ℤ → StateDb → VmResult
  pub call : Address → Address → Bytes → ℕ → ℤ → StateDb → VmResult

pub data TxError : Type 0 where
  nonce_too_high nonce_too_low insufficient_balance_for_gas gas_limit_reached : TxError
  out_of_gas vm_insufficient_balance : TxError

-- The fields of StateTransition that change.
pub record Transition : Type 0 where
  pub gp : ℕ
  pub gas : ℕ
  pub initial_gas : ℕ
  pub state : StateDb

-- What TransitionDb returns: an error, or the data, the gas used and whether the EVM failed.
pub data Outcome : Type 0 where
  rejected : TxError → Outcome
  executed : Bytes → ℕ → Bool → Outcome

module _ (b : Backend) (tx : Transaction) (from : Address) where
  -- `buyGas`: the error, if any, and the transition
  unfoldable pub buy_gas : Transition → Option TxError × Transition
  buy_gas st =
      let mgval = pos tx.gas_limit *ℤ tx.gas_price in
      let (balance, s1) = get_balance b from st.state in
      if ltb_ℤ balance mgval
      then (some insufficient_balance_for_gas, record st { state = s1 })
      else (elim (sub_gas tx.gas_limit st.gp) [
        | none ↦ (some gas_limit_reached, record st { state = s1 })
        | some gp' ↦ (
          none,
          record {
            gp = gp';
            gas = (st.gas + tx.gas_limit) % 2 ^ 64;
            initial_gas = tx.gas_limit;
            state = sub_balance b from mgval s1;
          },
        )
      ])

  unfoldable pub pre_check : Transition → Option TxError × Transition
  unfolding buy_gas
  pre_check st =
      let (nonce, s1) = get_nonce b from st.state in
      if ltb nonce tx.nonce
      then (some nonce_too_high, record st { state = s1 })
      else if ltb tx.nonce nonce
      then (some nonce_too_low, record st { state = s1 })
      else buy_gas (record st { state = s1 })

  abbrev pub gas_used : Transition → ℕ
  gas_used st = (st.initial_gas + 2 ^ 64 - st.gas) % 2 ^ 64

  -- The refund counter, capped to half of the used gas.
  unfoldable pub refund_gas : Transition → Result Transition
  refund_gas st =
      let half = gas_used st / 2 in
      let refund = if ltb st.state.refund half then st.state.refund else half in
      let gas = (st.gas + refund) % 2 ^ 64 in
      let s1 = add_balance b from (pos gas *ℤ tx.gas_price) st.state in
      add_gas gas st.gp >>= λ gp'. ok (record st { gp = gp'; gas = gas; state = s1 })

  -- `useGas`
  unfoldable pub use_gas : ℕ → Transition → Option Transition
  use_gas amount st = if ltb st.gas amount then none else some (record st { gas = st.gas - amount })

  module _ (evm : Evm) where
    -- The call of the EVM; the nonce of a call is set first. An empty list of receivers that is not
    -- nil has no first element.
    unfoldable pub run_evm : Transition → Result VmResult
    run_evm st = elim tx.tos [
      | none ↦ ok (evm.create from tx.payload st.gas tx.value st.state)
      | some [] ↦ panic slice_bounds
      | some (to ∷ _) ↦
          let (nonce, s1) = get_nonce b from st.state in
          ok (
            evm.call from to tx.payload st.gas tx.value
              (set_nonce b from ((nonce + 1) % 2 ^ 64) s1))
    ]

    -- The refund, the miner's fee and the return, with `vmerr != nil`.
    unfoldable pub pay : Bool → VmResult → Transition → Result (Outcome × Transition)
    unfolding refund_gas
    pay failed r st = refund_gas (record st { gas = r.left_gas; state = r.state }) >>= λ st2.
        let used = gas_used st2 in
        ok (
          executed r.ret used failed,
          record st2 { state = add_balance b evm.coinbase (pos used *ℤ tx.gas_price) st2.state },
        )

    -- What follows the EVM's return.
    unfoldable pub settle : VmResult → Transition → Result (Outcome × Transition)
    unfolding pay
    settle r st = elim r.vmerr [
      | some insufficient_balance ↦
          ok (rejected vm_insufficient_balance, record st { gas = r.left_gas; state = r.state })
      | some (other_vm_error e) ↦ pay true r st
      | none ↦ pay false r st
    ]

    -- `TransitionDb` from the gas check on
    unfoldable pub transition_bought : Transition → Result (Outcome × Transition)
    unfolding use_gas run_evm settle
    transition_bought st =
        elim (intrinsic_gas tx.payload tx.tx_type (elim tx.tos [ none ↦ true | some _ ↦ false ])) [
          | none ↦ ok (rejected out_of_gas, st)
          | some gas ↦ elim (use_gas gas st) [
            | none ↦ ok (rejected out_of_gas, st)
            | some st1 ↦ run_evm st1 >>= λ r. settle r st1
          ]
        ]

    -- `NewStateTransition` and `TransitionDb`
    unfoldable pub transition_db : ℕ → StateDb → Result (Outcome × Transition)
    unfolding pre_check transition_bought
    transition_db gp s =
        let (err, st) = pre_check (record { gp = gp; gas = 0; initial_gas = 0; state = s }) in
        elim err [ some e ↦ ok (rejected e, st) | none ↦ transition_bought st ]
