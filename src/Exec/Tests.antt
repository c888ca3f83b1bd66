-- ===== src/Exec/Tests.antt =====
-- The theorems about the execution of transactions, applied to one transfer.
use uranus.Prelude.{
  ◌+◌, ◌-◌, ◌≤◌, ◌≡◌, refl, none, some, [], ◌∷◌, if◌then◌else◌, ok, arith, false, ◌==◌,
}
use uranus.Prelude.Int.{ℤ, pos, ◌-ℤ◌}
use uranus.State.Object.{Address}
use uranus.State.View
use uranus.State.Object
use uranus.Prelude.Int
use uranus.State.View.{Same, IsSound}
use uranus.State.Getters.{get_balance}
use uranus.State.Accounts.{balance_of}
use uranus.State.Tests.{test_backend, test_db, IsSound-test_db, IsNumbered-test_db}
use uranus.Dpos.Tests.{test_context}
use uranus.Exec.Message.{ChainConfig, charged, apply_dpos_message}
use uranus.Exec.Message.Rejected.{RejectedVote, apply_dpos_message-not_candidate}
use uranus.Exec.GasPool.{add_gas, sub_gas, add_gas-sub_gas}
use uranus.Exec.IntrinsicGas
use uranus.Exec.IntrinsicGas.{intrinsic_gas, intrinsic_gas-sum}
use uranus.Exec.Transition
use uranus.Exec.Transition.{Transaction, VmResult, Evm, Transition, pre_check, settle}
use uranus.Exec.Transition.Checks
use uranus.Exec.Transition.Checks.{first_failure, pre_check-refused, pre_check-accepted}
use uranus.Exec.Transition.Settlement.{settled_balance, settle_accounts}

add_gas-sub_gas_example : add_gas 300 700 ≡ ok 1000
unfolding add_gas sub_gas
add_gas-sub_gas_example = add_gas-sub_gas 1000 300 300 700 (omega arith) refl (omega arith)

intrinsic_gas-sum_example : intrinsic_gas (0 ∷ 7 ∷ 0 ∷ []) IntrinsicGas.binary false ≡ some 21076
unfolding IntrinsicGas.byte_cost
intrinsic_gas-sum_example = intrinsic_gas-sum (0 ∷ 7 ∷ 0 ∷ []) IntrinsicGas.binary false refl

abbrev test_tx : Transaction
test_tx = record {
  tx_type = IntrinsicGas.binary;
  nonce = 4;
  gas_price = pos 2;
  gas_limit = 30000;
  tos = some (2 ∷ []);
  value = pos 10;
  payload = [];
}

abbrev old_tx : Transaction
old_tx = record test_tx { nonce = 3 }

pre_check-refused_example :
    ((pre_check test_backend old_tx 1 (Checks.started test_backend old_tx 1 50000 test_db)).0
      ≡ some Transition.nonce_too_low)
    × ((pre_check test_backend old_tx 1 (Checks.started test_backend old_tx 1 50000 test_db)).1.gp
        ≡ 50000)
    × Same test_backend
        (pre_check test_backend old_tx 1
          (Checks.started test_backend old_tx 1 50000 test_db)).1.state
        test_db
unfolding View.view Object.new_object
pre_check-refused_example =
    pre_check-refused test_backend old_tx 1 50000 test_db Transition.nonce_too_low IsSound-test_db
      refl

pre_check-accepted_example :
    ((pre_check test_backend test_tx 1 (Checks.started test_backend test_tx 1 50000 test_db)).0
      ≡ none)
    × ((pre_check test_backend test_tx 1 (Checks.started test_backend test_tx 1 50000 test_db)).1.gp
          + 30000
        ≡ 50000)
    × ((pre_check test_backend test_tx 1
          (Checks.started test_backend test_tx 1 50000 test_db)).1.gas
        ≡ 30000)
    × ((pre_check test_backend test_tx 1
          (Checks.started test_backend test_tx 1 50000 test_db)).1.initial_gas
        ≡ 30000)
    × ((j : Address)
        → balance_of test_backend
            (pre_check test_backend test_tx 1
              (Checks.started test_backend test_tx 1 50000 test_db)).1.state
            j
          ≡ (if 1 == j
              then balance_of test_backend test_db j -ℤ pos 60000
              else balance_of test_backend test_db j))
    × IsSound
        (pre_check test_backend test_tx 1
          (Checks.started test_backend test_tx 1 50000 test_db)).1.state
unfolding View.view Object.new_object Int.◌*ℤ◌
pre_check-accepted_example =
    pre_check-accepted test_backend test_tx 1 50000 test_db IsSound-test_db (omega arith) refl

abbrev test_evm : Evm
test_evm = record {
  coinbase = 3;
  create = λ from code gas value s. record { ret = []; left_gas = gas; vmerr = none; state = s };
  call = λ from to input gas value s. record {
    ret = 1 ∷ [];
    left_gas = gas - 1000;
    vmerr = none;
    state = s;
  };
}

abbrev test_bought : Transition
test_bought = record { gp = 20000; gas = 9000; initial_gas = 30000; state = test_db }

abbrev test_result : VmResult
test_result = test_evm.call 1 2 [] 9000 (pos 10) (record test_db { refund = 100 })

settle_accounts_example :
    (st' : Transition) × (settle test_backend test_tx 1 test_evm test_result test_bought
      ≡ ok (Transition.executed (1 ∷ []) 21900 false, st'))
    × (8100 ≤ 30000)
    × (st'.gp ≡ 28100)
    × ((j : Address)
        → balance_of test_backend st'.state j
          ≡ settled_balance test_backend test_tx 1 3 test_result test_bought j)
settle_accounts_example =
    settle_accounts test_backend test_tx 1 test_evm test_result test_bought
      (record {
        placed = λ a o found. absurd (cc);
        gone = λ a o found. absurd (cc);
        counted = omega arith;
        restorable = tt;
      })
      (omega arith) (omega arith) (omega arith) (λ e. absurd (cc))

abbrev test_vote : Transaction
test_vote = record test_tx { tx_type = IntrinsicGas.delegate; tos = some (12 ∷ []) }

abbrev test_config : ChainConfig
test_config = record { min_delegate_duration = pos 3600; delay_duration = pos 259200 }

apply_dpos_message-not_candidate_example :
    RejectedVote test_backend test_config test_vote 1 50000 test_context
      (charged test_backend test_config test_vote 1 0 (get_balance test_backend 1 test_db).1)
      (apply_dpos_message test_backend test_config test_vote 1 (pos 7) test_context test_db 50000)
unfolding View.view Object.new_object Int.◌*ℤ◌ Int.◌-ℤ◌
apply_dpos_message-not_candidate_example =
    apply_dpos_message-not_candidate test_backend test_config test_vote 1 (pos 7) test_context
      test_db 50000 IsSound-test_db IsNumbered-test_db refl refl (λ h. refl) refl
