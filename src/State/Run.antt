-- ===== src/State/Run.antt =====
-- Sequences of calls on the state, as the EVM and the executor make them: operations, reads,
-- snapshots and reverts.
use uranus.Prelude.{ℕ, ◌<◌, List, [], ◌∷◌, Result, ok, ◌>>=◌}
use uranus.Prelude.Int.{ℤ}
use uranus.State.Object.{Address, Hash, Bytes, Backend}
use uranus.State.Db.{Log, StateDb, get_state_object}
use uranus.State.Ops
use uranus.State.Getters
use uranus.State.Journal.{snapshot, revert_to_snapshot}

pub data Op : Type 0 where
  -- `read` is any getter of an account's fields, the other two load a word or the code.
  read read_code create_account suicide : Address → Op
  read_storage : Address → Hash → Op
  add_balance sub_balance set_balance : Address → ℤ → Op
  set_locked_balance set_unlocked_balance set_delegate_timestamp : Address → ℤ → Op
  set_undelegate_timestamp : Address → ℤ → Op
  set_nonce : Address → ℕ → Op
  set_contract_code : Address → Bytes → Op
  set_storage : Address → Hash → Hash → Op
  add_log : Log → Op
  add_refund : ℕ → Op
  add_preimage : Hash → Bytes → Op
  take_snapshot : Op
  revert_to : ℕ → Op

module _ (b : Backend) where
  unfoldable pub apply : Op → StateDb → Result StateDb
  apply (read a) s = ok (get_state_object b a s).1
  apply (read_code a) s = ok (Getters.get_contract_code b a s).1
  apply (read_storage a k) s = ok (Getters.get_storage b a k s).1
  apply (create_account a) s = ok (Ops.create_account b a s)
  apply (suicide a) s = ok (Ops.suicide b a s).1
  apply (add_balance a v) s = ok (Ops.add_balance b a v s)
  apply (sub_balance a v) s = ok (Ops.sub_balance b a v s)
  apply (set_balance a v) s = ok (Ops.set_balance b a v s)
  apply (set_locked_balance a v) s = ok (Ops.set_locked_balance b a v s)
  apply (set_unlocked_balance a v) s = Ops.set_unlocked_balance b a v s
  apply (set_delegate_timestamp a v) s = ok (Ops.set_delegate_timestamp b a v s)
  apply (set_undelegate_timestamp a v) s = ok (Ops.set_undelegate_timestamp b a v s)
  apply (set_nonce a n) s = ok (Ops.set_nonce b a n s)
  apply (set_contract_code a c) s = ok (Ops.set_contract_code b a c s)
  apply (set_storage a k v) s = ok (Ops.set_storage b a k v s)
  apply (add_log l) s = ok (Ops.add_log l s)
  apply (add_refund gas) s = ok (Ops.add_refund gas s)
  apply (add_preimage h image) s = ok (Ops.add_preimage h image s)
  apply take_snapshot s = ok (snapshot s).1
  apply (revert_to id) s = revert_to_snapshot b id s

  unfoldable pub run : List Op → StateDb → Result StateDb
  unfolding apply
  run [] s = ok s
  run (op ∷ ops) s = apply op s >>= run ops

-- A call that may follow the snapshot `id` and leave it standing: no revert to it or to an older
-- one, and not the setter that journals nothing.
abbrev pub IsWithin : ℕ → Op → Type 0
IsWithin id (revert_to j) = id < j
IsWithin id (set_undelegate_timestamp a v) = ⊥
IsWithin id _ = Unit
