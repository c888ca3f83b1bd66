-- ===== src/State/Finalise.antt =====
-- Finalise of core/state/statedb.go, which ends a transaction: the objects that the journal counts as
-- dirty go to the account trie, and the journal is dropped.
pub mod Written
pub mod Final
pub mod Reloaded
pub mod Tests
use mathlib.Core.Option.{get_or}
use uranus.Prelude.{
  ℕ, ◌≡◌, Bool, true, false, ◌&&◌, ◌||◌, Option, none, some, List, [], ◌∷◌, if◌then◌else◌, update,
  ltb, Result, ok, panic, encode_failed, ◌>>=◌, ◌==◌, not, refl, arith, ap, sym, ◌∙◌, Bool-cases,
  Option-cases, inl, inr,
}
use uranus.Prelude.Int.{ℤ, pos, ltb_ℤ}
use uranus.State.Object.{Address, Hash, Backend, Account, StateObject, is_empty, get_trie}
use uranus.State.Db.{StateDb, set_state_object}

-- The account as `EncodeRLP` writes it, a nil integer being a zero.
abbrev pub account_of : StateObject → Account
account_of o = record {
  unlocked_balance = some (get_or o.unlocked_balance (pos 0));
  undelegate_timestamp = some (get_or o.undelegate_timestamp (pos 0));
  locked_balance = some o.locked_balance;
  delegate_timestamp = some o.delegate_timestamp;
  nonce = o.nonce;
  balance = some o.balance;
  root = o.root;
  code_hash = some o.code_hash;
}

-- A negative integer has no encoding.
abbrev pub has_negative : StateObject → Bool
has_negative o =
    ltb_ℤ o.balance (pos 0)
    || (ltb_ℤ o.locked_balance (pos 0)
        || (ltb_ℤ o.delegate_timestamp (pos 0)
            || (ltb_ℤ (get_or o.unlocked_balance (pos 0)) (pos 0)
                || ltb_ℤ (get_or o.undelegate_timestamp (pos 0)) (pos 0))))

unfoldable pub update_state_object : StateObject → StateDb → Result StateDb
update_state_object o s =
    if has_negative o
    then panic encode_failed
    else ok (record s { trie = update s.trie o.address (some (account_of o)) })

unfoldable pub delete_state_object : StateObject → StateDb → StateDb
delete_state_object o s = record s {
  state_objects = update s.state_objects o.address (some (record o { deleted = true }));
  trie = update s.trie o.address none;
}

unfoldable pub clear_journal_and_refund : StateDb → StateDb
clear_journal_and_refund s = record s { entries = []; dirties = λ a. 0; revisions = []; refund = 0 }

-- The range over the journal's counts meets each address that has one, in the order that the
-- runtime picks; `order` has the addresses in that order.
unfoldable pub dirty_addresses : List Address → StateDb → List Address
dirty_addresses [] s = []
dirty_addresses (a ∷ order) s =
    let rest = dirty_addresses order s in if ltb 0 (s.dirties a) then a ∷ rest else rest

module _ (b : Backend) where
  -- `updateTrie`: the dirty words go to the storage trie, a zero word as a deletion.
  unfoldable pub update_trie : StateObject → StateObject
  update_trie o = record o {
    trie = some (λ k. get_or (o.dirty_storage k) (get_trie b o k));
    dirty_storage = λ k. none;
  }

  unfoldable pub update_root : StateObject → StateObject
  unfolding update_trie
  update_root o =
      let o1 = update_trie o in record o1 { root = b.storage_root (get_or o1.trie (λ k. 0)) }

  -- Does Finalise remove the object?
  abbrev pub is_condemned : Bool → StateObject → Bool
  is_condemned delete_empty o = o.suicided || (delete_empty && is_empty b o)

  -- The body of the loop over the dirty addresses.
  unfoldable pub finalise_object : Bool → Address → StateDb → Result StateDb
  unfolding update_root update_state_object delete_state_object
  finalise_object delete_empty a s = elim (s.state_objects a) [
    | none ↦ ok s
    | some o ↦
        let marked = update s.state_objects_dirty a true in
        if is_condemned delete_empty o
        then ok (record (delete_state_object o s) { state_objects_dirty = marked })
        else update_state_object (update_root o) (set_state_object (update_root o) s) >>= λ s1.
            ok (record s1 { state_objects_dirty = marked })
  ]

  -- The loop, over the dirty addresses in the order of the range.
  unfoldable pub finalise_objects : Bool → List Address → StateDb → Result StateDb
  unfolding finalise_object
  finalise_objects delete_empty [] s = ok s
  finalise_objects delete_empty (a ∷ order) s =
      finalise_object delete_empty a s >>= finalise_objects delete_empty order

  unfoldable pub finalise : Bool → List Address → StateDb → Result StateDb
  unfolding finalise_objects clear_journal_and_refund dirty_addresses
  finalise delete_empty order s =
      finalise_objects delete_empty (dirty_addresses order s) s >>= λ s1.
      ok (clear_journal_and_refund s1)
