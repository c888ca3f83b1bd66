-- ===== src/State/Ops.antt =====
-- core/state/statedb.go and state_object.go: the operations that change the state. Each journals
-- what it changes, but `set_undelegate_timestamp`, whose setter the source calls directly.
use uranus.Prelude.{
  ℕ, ◌+◌, ◌%◌, ◌^◌, Bool, true, false, none, some, [], ◌∷◌, ◌++◌, ◌==◌, if◌then◌else◌, update,
  Result, ok, panic, nil_pointer,
}
use uranus.Prelude.Int.{ℤ, pos, ◌+ℤ◌, ◌-ℤ◌, is_zero}
use uranus.State.Object.{
  Address, Hash, Bytes, Backend, StateObject, is_empty, get_state, get_code, set_state, set_code,
  mark_suicided,
}
use uranus.State.Db.{
  Log, Change, balance_change, nonce_change, storage_change, code_change, locked_balance_change,
  unlocked_balance_change, delegate_timestamp_change, refund_change, add_log_change,
  add_preimage_change, touch_change, suicide_change, account_change, StateDb, ripemd, dirty, append,
  set_state_object, get_state_object, create_object, get_or_new_state_object,
}

-- A setter of an object that journals: the entry, then the write through the object's pointer.
unfoldable pub write_change : Change → StateObject → StateDb → StateDb
write_change c o s = set_state_object o (append (account_change o.address c) s)

unfoldable pub object_set_balance : ℤ → StateObject → StateDb → StateDb
object_set_balance v o = write_change (balance_change o.balance) (record o { balance = v })

unfoldable pub touch : StateObject → StateDb → StateDb
touch o s =
    let s' = append (touch_change o.address) s in
    if o.address == ripemd then dirty o.address s' else s'

module _ (b : Backend) where
  unfoldable pub object_add_balance : ℤ → StateObject → StateDb → StateDb
  object_add_balance v o s =
      if is_zero v
      then if is_empty b o then touch o s else s
      else object_set_balance (o.balance +ℤ v) o s

  unfoldable pub object_sub_balance : ℤ → StateObject → StateDb → StateDb
  object_sub_balance v o s = if is_zero v then s else object_set_balance (o.balance -ℤ v) o s

  unfoldable pub create_account : Address → StateDb → StateDb
  create_account a s =
      let (o, prev, s1) = create_object b a s in
      elim prev [ none ↦ s1 | some p ↦ set_state_object (record o { balance = p.balance }) s1 ]

  unfoldable pub add_balance : Address → ℤ → StateDb → StateDb
  add_balance a v s = let (o, s1) = get_or_new_state_object b a s in object_add_balance v o s1

  unfoldable pub sub_balance : Address → ℤ → StateDb → StateDb
  sub_balance a v s = let (o, s1) = get_or_new_state_object b a s in object_sub_balance v o s1

  unfoldable pub set_balance : Address → ℤ → StateDb → StateDb
  set_balance a v s = let (o, s1) = get_or_new_state_object b a s in object_set_balance v o s1

  unfoldable pub set_nonce : Address → ℕ → StateDb → StateDb
  set_nonce a n s =
      let (o, s1) = get_or_new_state_object b a s in
      write_change (nonce_change o.nonce) (record o { nonce = n }) s1

  unfoldable pub set_contract_code : Address → Bytes → StateDb → StateDb
  set_contract_code a c s =
      let (o, s1) = get_or_new_state_object b a s in
      let (prev, o1) = get_code b o in
      write_change (code_change prev o1.code_hash) (set_code (b.code_hash_of c) (some c) o1) s1

  unfoldable pub set_storage : Address → Hash → Hash → StateDb → StateDb
  set_storage a k v s =
      let (o, s1) = get_or_new_state_object b a s in
      let (prev, o1) = get_state b k o in write_change (storage_change k prev) (set_state k v o1) s1

  unfoldable pub set_locked_balance : Address → ℤ → StateDb → StateDb
  set_locked_balance a v s =
      let (o, s1) = get_or_new_state_object b a s in
      write_change (locked_balance_change o.locked_balance) (record o { locked_balance = v }) s1

  -- The copy of the previous balance panics where it is nil.
  unfoldable pub set_unlocked_balance : Address → ℤ → StateDb → Result StateDb
  set_unlocked_balance a v s =
      let (o, s1) = get_or_new_state_object b a s in
      elim o.unlocked_balance [
        | none ↦ panic nil_pointer
        | some w ↦
            ok
              (write_change (unlocked_balance_change w) (record o { unlocked_balance = some v }) s1)
      ]

  unfoldable pub set_delegate_timestamp : Address → ℤ → StateDb → StateDb
  set_delegate_timestamp a v s =
      let (o, s1) = get_or_new_state_object b a s in
      write_change (delegate_timestamp_change o.delegate_timestamp)
        (record o { delegate_timestamp = v }) s1

  -- No entry is journalled.
  unfoldable pub set_undelegate_timestamp : Address → ℤ → StateDb → StateDb
  set_undelegate_timestamp a v s =
      let (o, s1) = get_or_new_state_object b a s in
      set_state_object (record o { undelegate_timestamp = some v }) s1

  -- `Suicide`: whether there was an account, and the state
  unfoldable pub suicide : Address → StateDb → Bool × StateDb
  suicide a s =
      let (found, s1) = get_state_object b a s in
      elim found [
        | none ↦ (false, s1)
        | some o ↦
            let s2 = append (suicide_change a o.suicided o.balance) s1 in
            (true, set_state_object (record (mark_suicided o) { balance = pos 0 }) s2)
      ]

unfoldable pub add_refund : ℕ → StateDb → StateDb
add_refund gas s =
    let s1 = append (refund_change s.refund) s in record s1 { refund = (s1.refund + gas) % 2 ^ 64 }

unfoldable pub add_log : Log → StateDb → StateDb
add_log l s =
    let s1 = append (add_log_change s.thash) s in
    let l' : Log = record l {
      transaction_hash = s1.thash;
      block_hash = s1.bhash;
      transaction_index = s1.tx_index;
      log_index = s1.log_size;
    } in
    record s1 {
      logs = update s1.logs s1.thash (s1.logs s1.thash ++ l' ∷ []);
      log_size = (s1.log_size + 1) % 2 ^ 64;
    }

unfoldable pub add_preimage : Hash → Bytes → StateDb → StateDb
add_preimage h image s = elim (s.preimages h) [
  | some _ ↦ s
  | none ↦
      let s1 = append (add_preimage_change h) s in
      record s1 { preimages = update s1.preimages h (some image) }
]

-- `Prepare`
unfoldable pub prepare : Hash → Hash → ℕ → StateDb → StateDb
prepare th bh i s = record s { thash = th; bhash = bh; tx_index = i }
