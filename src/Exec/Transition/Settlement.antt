-- ===== src/Exec/Transition/Settlement.antt =====
-- The refund and the fees of a transaction that the EVM has run.
use Prim.Native.Nat.{min}
use uranus.Prelude.{
  ℕ, ◌+◌, ◌-◌, ◌/◌, ◌%◌, ◌^◌, ◌<◌, ◌≤◌, ◌≡◌, ◌≢◌, refl, ◌∙◌, Bool, true, false, Option, none, some,
  ltb, ◌==◌, if◌then◌else◌, arith, ok,
}
use uranus.Prelude.Int.{ℤ, pos, ◌+ℤ◌, ◌*ℤ◌}
use uranus.State.Object.{Address, Backend}
use uranus.State.Ops.{add_balance}
use uranus.State.View.{IsSound}
use uranus.State.Revert.Accounts.{Step-add_balance}
use uranus.State.Accounts.{balance_of, balance_of-add_balance}
use uranus.Exec.GasPool.{add_gas}
use uranus.Exec.Transition.{
  Transaction, VmError, VmResult, Evm, Transition, insufficient_balance, other_vm_error, executed,
  refund_gas, pay, settle,
}

-- The gas that comes back: what the EVM left, and the refund, at most half of what it used.
abbrev pub returned_gas : VmResult → Transition → ℕ
returned_gas r st = r.left_gas + min r.state.refund ((st.initial_gas - r.left_gas) / 2)

-- `vmerr != nil`
abbrev pub failed : Option VmError → Bool
failed none = false
failed (some e) = true

module _ (b : Backend) (tx : Transaction) (from : Address) where
  -- What the sender and the miner gain, on top of the balances that the EVM left.
  abbrev pub settled_balance : Address → VmResult → Transition → Address → ℤ
  settled_balance coinbase r st j =
      let back = pos (returned_gas r st) *ℤ tx.gas_price in
      let fee = pos (st.initial_gas - returned_gas r st) *ℤ tx.gas_price in
      let after = if from == j then balance_of b r.state j +ℤ back else balance_of b r.state j in
      if coinbase == j then after +ℤ fee else after

  refunded : VmResult → Transition → Transition
  refunded r st = record {
    gp = st.gp + returned_gas r st;
    gas = returned_gas r st;
    initial_gas = st.initial_gas;
    state = add_balance b from (pos (returned_gas r st) *ℤ tx.gas_price) r.state;
  }

  gas_after :
      (left refund initial : ℕ)
      → initial < 2 ^ 64
      → left ≤ initial
      → (left
            + (if ltb refund ((initial + 2 ^ 64 - left) % 2 ^ 64 / 2)
                then refund
                else ((initial + 2 ^ 64 - left) % 2 ^ 64 / 2)))
          % 2 ^ 64
        ≡ left + min refund ((initial - left) / 2)
  gas_after left refund initial i l = ground arith

  given_back : (gas gp : ℕ) → gp + gas < 2 ^ 64 → add_gas gas gp ≡ ok (gp + gas)
  unfolding add_gas
  given_back gas gp h = ground arith

  refund_gas-refunded :
      (r : VmResult) (st : Transition)
      → st.initial_gas < 2 ^ 64
      → r.left_gas ≤ st.initial_gas
      → st.gp + st.initial_gas < 2 ^ 64
      → refund_gas b tx from (record st { gas = r.left_gas; state = r.state }) ≡ ok (refunded r st)
  unfolding refund_gas refunded
  refund_gas-refunded r st i l g = rw (
    gas_after r.left_gas r.state.refund st.initial_gas i l,
    given_back (returned_gas r st) st.gp (omega arith),
  )

  settle-pay :
      (evm : Evm) (r : VmResult) (st : Transition) (v : Option VmError)
      → r.vmerr ≡ v
      → v ≢ some insufficient_balance
      → settle b tx from evm r st ≡ pay b tx from evm (failed v) r st
  unfolding settle
  settle-pay evm r st none h ne = rw (h, settle)
  settle-pay evm r st (some insufficient_balance) h ne = absurd (ne refl)
  settle-pay evm r st (some (other_vm_error e)) h ne = rw (h, settle)

  used_wrap :
      (initial back : ℕ)
      → initial < 2 ^ 64
      → back ≤ initial
      → (initial + 2 ^ 64 - back) % 2 ^ 64 ≡ initial - back
  used_wrap initial back i l = omega arith

  abbrev settled : Evm → VmResult → Transition → Transition
  settled evm r st = record (refunded r st) {
    state =
        add_balance b evm.coinbase (pos (st.initial_gas - returned_gas r st) *ℤ tx.gas_price)
          (refunded r st).state;
  }

  pay-settled :
      (evm : Evm) (f : Bool) (r : VmResult) (st : Transition)
      → st.initial_gas < 2 ^ 64
      → r.left_gas ≤ st.initial_gas
      → st.gp + st.initial_gas < 2 ^ 64
      → pay b tx from evm f r st
        ≡ ok (executed r.ret (st.initial_gas - returned_gas r st) f, settled evm r st)
  unfolding pay refunded
  pay-settled evm f r st i l g =
      rw (
        refund_gas-refunded r st i l g,
        used_wrap st.initial_gas (returned_gas r st) i (omega arith),
      )

  settle-settled :
      (evm : Evm) (r : VmResult) (st : Transition)
      → st.initial_gas < 2 ^ 64
      → r.left_gas ≤ st.initial_gas
      → st.gp + st.initial_gas < 2 ^ 64
      → r.vmerr ≢ some insufficient_balance
      → settle b tx from evm r st
        ≡ ok
            (executed r.ret (st.initial_gas - returned_gas r st) (failed r.vmerr), settled evm r st)
  settle-settled evm r st i l g ne =
      settle-pay evm r st r.vmerr refl ne ∙ pay-settled evm (failed r.vmerr) r st i l g

  balance_of-settled :
      (evm : Evm) (r : VmResult) (st : Transition) (j : Address)
      → IsSound r.state
      → balance_of b (settled evm r st).state j ≡ settled_balance evm.coinbase r st j
  unfolding refunded
  balance_of-settled evm r st j h =
      let back = pos (returned_gas r st) *ℤ tx.gas_price in
      ground (
        arith,
        balance_of-add_balance b from back r.state j h,
        balance_of-add_balance b evm.coinbase
            (pos (st.initial_gas - returned_gas r st) *ℤ tx.gas_price)
            (add_balance b from back r.state) j (Step-add_balance b from back r.state h).sound,
      )

  -- Once the EVM has returned a well-formed state with no error or any but ErrInsufficientBalance,
  -- and has left no more gas than was bought, where the pool with the gas that was bought is
  -- within 64 bits, the gas left and a refund of at most half of the used gas go back to the pool
  -- and, at the price, to the sender; the rest is reported as used and paid to the miner; no other
  -- balance changes.
  pub settle_accounts :
      (evm : Evm) (r : VmResult) (st : Transition)
      → IsSound r.state
      → st.initial_gas < 2 ^ 64
      → r.left_gas ≤ st.initial_gas
      → st.gp + st.initial_gas < 2 ^ 64
      → r.vmerr ≢ some insufficient_balance
      → (st' : Transition) × (settle b tx from evm r st
          ≡ ok (executed r.ret (st.initial_gas - returned_gas r st) (failed r.vmerr), st'))
        × (returned_gas r st ≤ st.initial_gas)
        × (st'.gp ≡ st.gp + returned_gas r st)
        × ((j : Address) → balance_of b st'.state j ≡ settled_balance evm.coinbase r st j)
  settle_accounts evm r st h i l g ne = (
    settled evm r st,
    settle-settled evm r st i l g ne,
    omega arith,
    unfold refunded in refl,
    λ j. balance_of-settled evm r st j h,
  )
