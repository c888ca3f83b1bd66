-- ===== src/State/Finalise/Final.antt =====
-- What Finalise leaves in the account trie, told without its steps.
use mathlib.Core.Option.{get_or}
use uranus.Prelude.{
  ◌≡◌, Bool, true, false, ◌&&◌, ◌||◌, Option, none, some, List, [], ◌∷◌, if◌then◌else◌, ok, ◌==◌,
  elem, refl, arith, ap, ◌∙◌, Bool-cases, Option-cases, inl, inr, ==_iff, ltb,
}
use uranus.Prelude.Int.{pos, is_zero}
use uranus.State.Object.{Address, Hash, Backend, Account, StateObject, get_trie, is_empty}
use uranus.State.Db.{StateDb}
use uranus.State.Finalise.{
  account_of, clear_journal_and_refund, update_trie, update_root, finalise, dirty_addresses,
}
use uranus.State.Finalise.Written.{IsEncodable, IsOnce, written, finalise_objects-Finished}

same_count : (s : StateDb) (a j : Address) → (j == a) ≡ true → s.dirties j ≡ s.dirties a
same_count s a j e = ap s.dirties ((==_iff j a).0 e)

elem-dirty_addresses :
    (order : List Address) (s : StateDb) (j : Address)
    → elem j (dirty_addresses order s) ≡ (elem j order && ltb 0 (s.dirties j))
unfolding dirty_addresses
elem-dirty_addresses [] s j = refl
elem-dirty_addresses (a ∷ order) s j = elim (Bool-cases (ltb 0 (s.dirties a))) [
  | inl e ↦ rw e (ground (arith, elem-dirty_addresses order s j, same_count s a j))
  | inr e ↦ rw e (ground (arith, elem-dirty_addresses order s j, same_count s a j))
]

kept-IsOnce :
    (keep : Bool) (a : Address) (rest : List Address)
    → elem a rest ≡ false
    → IsOnce rest
    → IsOnce (if keep then a ∷ rest else rest)
kept-IsOnce true a rest new once = (new, once)
kept-IsOnce false a rest new once = once

dirty_addresses-IsOnce :
    (order : List Address) (s : StateDb) → IsOnce order → IsOnce (dirty_addresses order s)
unfolding dirty_addresses
dirty_addresses-IsOnce [] s once = tt
dirty_addresses-IsOnce (a ∷ order) s once =
    kept-IsOnce (ltb 0 (s.dirties a)) a (dirty_addresses order s)
      (ground (arith, elem-dirty_addresses order s a, once.0))
      (dirty_addresses-IsOnce order s once.1)

module _ (b : Backend) where
  -- The words that an object's storage ends with: those written since, over those of its trie.
  abbrev pub final_storage : StateObject → Hash → Hash
  final_storage o k = get_or (o.dirty_storage k) (get_or o.trie (b.open_storage o.address o.root) k)

  -- The account of an object that stays: nil integers as zeros, and the root of its final storage.
  abbrev pub final_account : StateObject → Account
  final_account o = record {
    unlocked_balance = some (get_or o.unlocked_balance (pos 0));
    undelegate_timestamp = some (get_or o.undelegate_timestamp (pos 0));
    locked_balance = some o.locked_balance;
    delegate_timestamp = some o.delegate_timestamp;
    nonce = o.nonce;
    balance = some o.balance;
    root = b.storage_root (final_storage o);
    code_hash = some o.code_hash;
  }

  final_account-update_root : (o : StateObject) → account_of (update_root b o) ≡ final_account o
  unfolding update_root update_trie get_trie
  final_account-update_root o = refl

module _ (b : Backend) (delete_empty : Bool) where
  -- An object that goes: it has suicided, or has neither nonce nor balance nor code where such objects
  -- are deleted.
  abbrev pub is_leaving : StateObject → Bool
  is_leaving o =
      o.suicided
      || (delete_empty && (o.nonce == 0 && (is_zero o.balance && o.code_hash == b.empty_code_hash)))

  -- What the account trie has at a dirty address in the end.
  abbrev pub final : StateDb → Address → Option Account
  final s a = elim (s.state_objects a) [
    | none ↦ s.trie a
    | some o ↦ if is_leaving o then none else some (final_account b o)
  ]

  written-final : (s : StateDb) (a : Address) → written b delete_empty s a ≡ final s a
  unfolding written is_empty
  written-final s a = elim (Option-cases (s.state_objects a)) [
    | inl n ↦ rw (written, final, n) refl
    | inr (o, n) ↦ rw (written, final, n, final_account-update_root b o) refl
  ]

  -- Finalise of a state whose objects stand at their addresses and have no negative integers, with
  -- a range that meets each address with a dirty count, and none twice, does not panic; in the
  -- account trie such an address then has nothing if its object has suicided or, where empty
  -- objects are deleted, has no nonce, balance and code, and else the object's fields, with the
  -- root of the words of its storage trie under those written since; an address without an object,
  -- and each address that is not dirty, is as before; the dirty counts, the entries, the revisions
  -- and the refund are cleared.
  pub finalise-final :
      (order : List Address) (s : StateDb)
      → IsOnce order
      → ((j : Address) → ltb 0 (s.dirties j) ≡ true → elem j order ≡ true)
      → IsEncodable s
      → (t : StateDb) × (finalise b delete_empty order s ≡ ok t)
        × ((j : Address) → t.trie j ≡ (if ltb 0 (s.dirties j) then final s j else s.trie j))
        × ((j : Address) → t.dirties j ≡ 0)
        × (t.entries ≡ [])
        × (t.revisions ≡ [])
        × (t.refund ≡ 0)
  unfolding finalise clear_journal_and_refund
  finalise-final order s once all h =
      let (t, e, p) =
        finalise_objects-Finished b delete_empty (dirty_addresses order s) s
          (dirty_addresses-IsOnce order s once) h in
      let covered : (j : Address) → elem j (dirty_addresses order s) ≡ ltb 0 (s.dirties j) =
        λ j. ground (arith, elem-dirty_addresses order s j, all j) in
      (
        clear_journal_and_refund t,
        rw (finalise, e) refl,
        λ j. p.trie j ∙ rw (covered j, written-final s j) refl,
        λ j. refl,
        refl,
        refl,
        refl,
      )
