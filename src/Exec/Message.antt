-- ===== src/Exec/Message.antt =====
-- applyDposMessage of core/executor/executor.go: the transactions that vote. `ExecActions` of the same
-- file is here too. Times are in nanoseconds.
pub mod Rejected
use mathlib.Core.Option.{get_or}
use uranus.Prelude.{
  ℕ, ◌+◌, ◌-◌, ◌%◌, ◌^◌, Bool, true, false, Option, none, some, List, [], ◌∷◌, ltb, if◌then◌else◌,
  Result, ok, panic, nil_pointer, ◌>>=◌,
}
use uranus.Prelude.Int.{ℤ, pos, negsuc, ◌+ℤ◌, ◌-ℤ◌, ◌*ℤ◌, ltb_ℤ, is_zero, sub_ℕ}
use uranus.State.Object.{Address, Backend}
use uranus.State.Db.{StateDb}
use uranus.State.Ops.{
  add_balance, sub_balance, set_nonce, set_locked_balance, set_unlocked_balance,
  set_delegate_timestamp, set_undelegate_timestamp,
}
use uranus.State.Getters.{
  get_balance, get_locked_balance, get_unlocked_balance, get_delegate_timestamp,
  get_undelegate_timestamp,
}
use uranus.State.Journal.{snapshot, revert_to_snapshot}
use uranus.Dpos.Context.{
  DposContext, DposError, become_candidate, kickout_candidate, delegate, undelegate,
}
use uranus.Exec.GasPool.{sub_gas}
use uranus.Exec.IntrinsicGas
use uranus.Exec.IntrinsicGas.{intrinsic_gas}
use uranus.Exec.Transition.{Transaction}

-- `big.Int.Int64`, and the product of two int64 that both wrap.
abbrev pub to_signed : ℕ → ℤ
to_signed n = let m = n % 2 ^ 64 in if ltb m (2 ^ 63) then pos m else pos m -ℤ pos (2 ^ 64)

abbrev pub to_int64 : ℤ → ℤ
to_int64 (pos n) = to_signed n
to_int64 (negsuc n) = to_signed (2 ^ 64 - (n + 1) % 2 ^ 64)

-- The difference of two times as a time.Duration, which saturates.
abbrev pub time_sub : ℤ → ℤ → ℤ
time_sub t u =
    let d = t -ℤ u in
    if ltb_ℤ d (pos 0 -ℤ pos (2 ^ 63))
    then pos 0 -ℤ pos (2 ^ 63)
    else if ltb_ℤ d (pos (2 ^ 63))
    then d
    else pos (2 ^ 63 - 1)

-- The durations of ChainConfig.
pub record ChainConfig : Type 0 where
  pub min_delegate_duration : ℤ
  pub delay_duration : ℤ

pub data MessageError : Type 0 where
  insufficient_balance_for_gas gas_limit_reached balance_insufficient : MessageError
  lockedbalance_insufficient min_delegate_duration_insufficient duration_insufficient : MessageError
  context_failed : DposError → MessageError

-- The gas, whether the message failed and its error; the pool, the state and the context.
pub record Message : Type 0 where
  pub gas : ℕ
  pub failed : Bool
  pub error : Option MessageError
  pub gp : ℕ
  pub state : StateDb
  pub context : DposContext

module _ (b : Backend) where
  -- What an account's unlocked balance holds goes to its balance.
  unfoldable pub release : Address → StateDb → Result StateDb
  release a s =
      let (unlocked, s1) = get_unlocked_balance b a s in
      elim unlocked [
        | none ↦ panic nil_pointer
        | some v ↦ set_unlocked_balance b a (pos 0) (add_balance b a v s1)
      ]

  -- `ExecActions`: the unlocked balance of each action's sender is released.
  unfoldable pub exec_actions : List Address → StateDb → Result StateDb
  unfolding release
  exec_actions [] s = ok s
  exec_actions (sender ∷ senders) s = release sender s >>= exec_actions senders

module _ (b : Backend) (config : ChainConfig) (tx : Transaction) (from : Address) where
  -- The error path of an operation on the context. `dpossnapshot` is reverted to itself, so the
  -- context stays as the operation left it.
  unfoldable pub reverted : ℕ → ℕ → DposError → DposContext → ℕ → StateDb → Result Message
  reverted gas id e ctx gp s = revert_to_snapshot b id s >>= λ s1. ok (record {
    gas = gas;
    failed = true;
    error = some (context_failed e);
    gp = gp;
    state = s1;
    context = ctx;
  })

  abbrev pub done : ℕ → DposContext → ℕ → StateDb → Message
  done gas ctx gp s = record {
    gas = gas;
    failed = false;
    error = none;
    gp = gp;
    state = s;
    context = ctx;
  }

  abbrev pub failed_with : ℕ → MessageError → DposContext → ℕ → StateDb → Message
  failed_with gas e ctx gp s = record {
    gas = gas;
    failed = true;
    error = some e;
    gp = gp;
    state = s;
    context = ctx;
  }

  -- The vote itself.
  unfoldable pub cast_vote : ℕ → ℕ → DposContext → ℕ → StateDb → Result Message
  unfolding reverted
  cast_vote gas id ctx gp s =
      let (err, ctx1) = delegate from (get_or tx.tos []) ctx in
      elim err [ none ↦ ok (done gas ctx1 gp s) | some e ↦ reverted gas id e ctx1 gp s ]

  -- A vote locks the value first, if it is positive.
  unfoldable pub apply_delegate : ℤ → ℕ → ℕ → DposContext → ℕ → StateDb → Result Message
  unfolding cast_vote
  apply_delegate timestamp gas id ctx gp s =
      if ltb_ℤ (pos 0) tx.value
      then (let (balance, s1) = get_balance b from s in
          if ltb_ℤ (balance -ℤ tx.value) (pos 0)
          then ok (failed_with gas balance_insufficient ctx gp s1)
          else let s2 = sub_balance b from tx.value s1 in
            let (locked, s3) = get_locked_balance b from s2 in
            let s4 = set_locked_balance b from (locked +ℤ tx.value) s3 in
            cast_vote gas id ctx gp (set_delegate_timestamp b from timestamp s4))
      else cast_vote gas id ctx gp s

  -- The withdrawal of the vote, when nothing is locked any more.
  unfoldable pub withdraw_vote : ℕ → ℕ → DposContext → ℕ → StateDb → Result Message
  unfolding reverted
  withdraw_vote gas id ctx gp s =
      let (locked, s1) = get_locked_balance b from s in
      if is_zero locked
      then (let (err, ctx1) = undelegate from ctx in
          elim err [ none ↦ ok (done gas ctx1 gp s1) | some e ↦ reverted gas id e ctx1 gp s1 ])
      else ok (done gas ctx gp s1)

  -- Is the stake still too young to be withdrawn?
  abbrev pub too_young : ℤ → ℤ → Bool
  too_young timestamp delegated =
      ltb_ℤ (time_sub (to_int64 timestamp) (to_int64 delegated))
        (to_int64 (pos 60000000000 *ℤ config.min_delegate_duration))

  -- Unlocking; `Add` panics on an unlocked balance that is nil.
  unfoldable pub unlock : ℤ → ℤ → StateDb → Result StateDb
  unlock timestamp locked s =
      let s1 = set_locked_balance b from (locked -ℤ tx.value) s in
      let (unlocked, s2) = get_unlocked_balance b from s1 in
      elim unlocked [
        | none ↦ panic nil_pointer
        | some v ↦ set_unlocked_balance b from (v +ℤ tx.value) s2 >>= λ s3.
            ok (set_undelegate_timestamp b from timestamp s3)
      ]

  unfoldable pub apply_undelegate : ℤ → ℕ → ℕ → DposContext → ℕ → StateDb → Result Message
  unfolding withdraw_vote unlock
  apply_undelegate timestamp gas id ctx gp s =
      if ltb_ℤ (pos 0) tx.value
      then (let (delegated, s1) = get_delegate_timestamp b from s in
          if too_young timestamp delegated
          then ok (failed_with gas min_delegate_duration_insufficient ctx gp s1)
          else let (locked, s2) = get_locked_balance b from s1 in
            if ltb_ℤ (locked -ℤ tx.value) (pos 0)
            then ok (failed_with gas lockedbalance_insufficient ctx gp s2)
            else unlock timestamp locked s2 >>= withdraw_vote gas id ctx gp)
      else withdraw_vote gas id ctx gp s

  unfoldable pub apply_redeem : ℤ → ℕ → DposContext → ℕ → StateDb → Result Message
  unfolding release
  apply_redeem timestamp gas ctx gp s =
      let (undelegated, s1) = get_undelegate_timestamp b from s in
      elim undelegated [
        | none ↦ panic nil_pointer
        | some t ↦
            if ltb_ℤ (to_int64 timestamp)
              (to_int64 t +ℤ to_int64 (config.delay_duration *ℤ pos 1000000000))
            then ok (failed_with gas duration_insufficient ctx gp s1)
            else release b from s1 >>= λ s2. ok (done gas ctx gp s2)
      ]

  -- The switch over the type of the transaction.
  unfoldable pub dispatch :
      IntrinsicGas.TxType → ℤ → ℕ → ℕ → DposContext → ℕ → StateDb → Result Message
  unfolding reverted apply_delegate apply_undelegate apply_redeem
  dispatch IntrinsicGas.login_candidate timestamp gas id ctx gp s =
      let (err, ctx1) = become_candidate from ctx in
      elim err [ none ↦ ok (done gas ctx1 gp s) | some e ↦ reverted gas id e ctx1 gp s ]
  dispatch IntrinsicGas.logout_candidate timestamp gas id ctx gp s =
      let (err, ctx1) = kickout_candidate from ctx in
      elim err [ none ↦ ok (done gas ctx1 gp s) | some e ↦ reverted gas id e ctx1 gp s ]
  dispatch IntrinsicGas.delegate timestamp gas id ctx gp s =
      apply_delegate timestamp gas id ctx gp s
  dispatch IntrinsicGas.undelegate timestamp gas id ctx gp s =
      apply_undelegate timestamp gas id ctx gp s
  dispatch IntrinsicGas.redeem timestamp gas id ctx gp s = apply_redeem timestamp gas ctx gp s
  dispatch _ timestamp gas id ctx gp s = ok (done gas ctx gp s)

  -- The fee and the nonce.
  abbrev pub charged : ℕ → StateDb → StateDb
  charged gas s =
      set_nonce b from ((tx.nonce + 1) % 2 ^ 64) (sub_balance b from (pos gas *ℤ tx.gas_price) s)

  -- `applyDposMessage`. The error of IntrinsicGas is dropped, its gas then being 0.
  unfoldable pub apply_dpos_message : ℤ → DposContext → StateDb → ℕ → Result Message
  unfolding dispatch
  apply_dpos_message timestamp ctx s gp =
      let gas = get_or (intrinsic_gas tx.payload tx.tx_type false) 0 in
      let (balance, s1) = get_balance b from s in
      if ltb_ℤ balance (pos gas *ℤ tx.gas_price)
      then ok (failed_with gas insufficient_balance_for_gas ctx gp s1)
      else elim (sub_gas gas gp) [
        | none ↦ ok (failed_with 0 gas_limit_reached ctx gp (charged gas s1))
        | some gp1 ↦
            let (id, s2) = snapshot (charged gas s1) in
            dispatch tx.tx_type timestamp gas id ctx gp1 s2
      ]
