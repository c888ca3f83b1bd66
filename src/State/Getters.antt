-- ===== src/State/Getters.antt =====
-- The getters of core/state/statedb.go. Each reads through `getStateObject`, so the account that it
-- reads becomes live; an account that is not there reads as zero.
use uranus.Prelude.{ℕ, Bool, true, false, Option, none, some, List}
use uranus.Prelude.Int.{ℤ, pos}
use uranus.State.Object.{Address, Hash, Bytes, Backend, is_empty, get_state, get_code}
use uranus.State.Db.{Log, StateDb, get_state_object, set_state_object}

module _ (b : Backend) where
  unfoldable pub exist : Address → StateDb → Bool × StateDb
  exist a s =
      let (found, s1) = get_state_object b a s in (elim found [ none ↦ false | some o ↦ true ], s1)

  unfoldable pub empty : Address → StateDb → Bool × StateDb
  empty a s =
      let (found, s1) = get_state_object b a s in
      (elim found [ none ↦ true | some o ↦ is_empty b o ], s1)

  unfoldable pub get_balance : Address → StateDb → ℤ × StateDb
  get_balance a s =
      let (found, s1) = get_state_object b a s in
      (elim found [ none ↦ pos 0 | some o ↦ o.balance ], s1)

  unfoldable pub get_nonce : Address → StateDb → ℕ × StateDb
  get_nonce a s =
      let (found, s1) = get_state_object b a s in (elim found [ none ↦ 0 | some o ↦ o.nonce ], s1)

  unfoldable pub get_locked_balance : Address → StateDb → ℤ × StateDb
  get_locked_balance a s =
      let (found, s1) = get_state_object b a s in
      (elim found [ none ↦ pos 0 | some o ↦ o.locked_balance ], s1)

  unfoldable pub get_delegate_timestamp : Address → StateDb → ℤ × StateDb
  get_delegate_timestamp a s =
      let (found, s1) = get_state_object b a s in
      (elim found [ none ↦ pos 0 | some o ↦ o.delegate_timestamp ], s1)

  -- nil where the object holds nil
  unfoldable pub get_unlocked_balance : Address → StateDb → Option ℤ × StateDb
  get_unlocked_balance a s =
      let (found, s1) = get_state_object b a s in
      (elim found [ none ↦ some (pos 0) | some o ↦ o.unlocked_balance ], s1)

  unfoldable pub get_undelegate_timestamp : Address → StateDb → Option ℤ × StateDb
  get_undelegate_timestamp a s =
      let (found, s1) = get_state_object b a s in
      (elim found [ none ↦ some (pos 0) | some o ↦ o.undelegate_timestamp ], s1)

  unfoldable pub has_suicided : Address → StateDb → Bool × StateDb
  has_suicided a s =
      let (found, s1) = get_state_object b a s in
      (elim found [ none ↦ false | some o ↦ o.suicided ], s1)

  -- The word read is cached in the object.
  unfoldable pub get_storage : Address → Hash → StateDb → Hash × StateDb
  get_storage a k s =
      let (found, s1) = get_state_object b a s in
      elim found [
        | none ↦ (0, s1)
        | some o ↦ let (v, o1) = get_state b k o in (v, set_state_object o1 s1)
      ]

  -- `GetCode`: the code, which is loaded into the object.
  unfoldable pub get_contract_code : Address → StateDb → Option Bytes × StateDb
  get_contract_code a s =
      let (found, s1) = get_state_object b a s in
      elim found [
        | none ↦ (none, s1)
        | some o ↦ let (c, o1) = get_code b o in (c, set_state_object o1 s1)
      ]

  unfoldable pub get_code_hash : Address → StateDb → Hash × StateDb
  get_code_hash a s =
      let (found, s1) = get_state_object b a s in
      (elim found [ none ↦ 0 | some o ↦ o.code_hash ], s1)

-- `GetRefund` and `GetLogs`
abbrev pub get_refund : StateDb → ℕ
get_refund s = s.refund

abbrev pub get_logs : Hash → StateDb → List Log
get_logs h s = s.logs h
