-- ===== src/State/Finalise/Reloaded.antt =====
-- What is read of an account after Finalise by a state that has nothing but the account trie.
use mathlib.Core.Option.{get_or}
use uranus.Prelude.{
  ◌≡◌, Bool, true, false, none, some, List, if◌then◌else◌, ok, elem, refl, arith, ap, sym, ◌∙◌,
  Bool-cases, Option-cases, inl, inr, ltb, fun_ext,
}
use uranus.Prelude.Int.{pos}
use uranus.State.Object.{
  Address, Hash, Backend, Account, StateObject, new_object, get_trie, get_state, set_state,
}
use uranus.State.Db.{StateDb}
use uranus.State.View.{AccountView, object_view, find_object, view, read_storage, read_code}
use uranus.State.Finalise.{finalise}
use uranus.State.Finalise.Written.{IsEncodable, IsOnce}
use uranus.State.Finalise.Final.{final_storage, final_account, is_leaving, finalise-final}

-- A state that is opened at the account trie: no object is live.
abbrev pub reopened : StateDb → StateDb
reopened s = record s { state_objects = λ a. none }

module _ (b : Backend) where
  -- GetState reads what was written last, or what the storage trie has.
  abbrev pub IsCached : StateObject → Type 0
  IsCached o = (k : Hash) → read_storage b o k ≡ final_storage b o k

  IsCached-new_object : (a : Address) (acc : Account) → IsCached (new_object b a acc)
  unfolding new_object get_trie
  IsCached-new_object a acc k = refl

  IsCached-set_state :
      (k : Hash) (v : Hash) (o : StateObject) → IsCached o → IsCached (set_state k v o)
  unfolding set_state get_trie
  IsCached-set_state k v o h j = ground (arith, h j)

  IsCached-get_state : (k : Hash) (o : StateObject) → IsCached o → IsCached (get_state b k o).1
  unfolding get_state get_trie
  IsCached-get_state k o h j = ground (arith, h j, h k)

  -- The account of an object as it is read from the trie.
  abbrev pub reloaded_view : StateObject → AccountView
  unfolding object_view
  reloaded_view o = record (object_view b o) {
    unlocked_balance = some (get_or o.unlocked_balance (pos 0));
    undelegate_timestamp = some (get_or o.undelegate_timestamp (pos 0));
    root = b.storage_root (read_storage b o);
    code = read_code b o.code_hash none;
    suicided = false;
  }

  final_account-reloaded_view :
      (j : Address) (o : StateObject)
      → o.address ≡ j
      → IsCached o
      → b.open_storage j (b.storage_root (final_storage b o)) ≡ final_storage b o
      → object_view b (new_object b j (final_account b o)) ≡ reloaded_view o
  unfolding new_object object_view
  final_account-reloaded_view j o placed cached opened =
      let same : final_storage b o ≡ read_storage b o = fun_ext λ k. sym (cached k) in
      let root = b.storage_root (final_storage b o) in
      ap
        (λ (a : Address). record (reloaded_view o) {
          address = a;
          root = root;
          storage = b.open_storage j root;
        })
        (sym placed)
      ∙ (ap (λ (f : Hash → Hash). record (reloaded_view o) { root = root; storage = f })
            (opened ∙ same)
          ∙ ap (λ (f : Hash → Hash). record (reloaded_view o) { root = b.storage_root f }) same)

  view-reopened :
      (t : StateDb) (j : Address)
      → view b (reopened t) j
        ≡ elim (t.trie j) [ none ↦ none | some acc ↦ some (object_view b (new_object b j acc)) ]
  unfolding view find_object
  view-reopened t j = elim (Option-cases (t.trie j)) [
    | inl e ↦ rw (view, find_object, e) refl
    | inr (acc, e) ↦ rw (view, find_object, e) refl
  ]

  -- An account that Finalise writes is read back from the account trie alone as it was: its fields
  -- as in the dirty object, with nil integers as zeros, each storage word as GetState read it, and
  -- the root of that storage; one whose object leaves is not there. It holds for a state as in
  -- finalise-final, an object whose cache agrees with its written words and its trie, and a
  -- storage trie that opens at the root of those words.
  pub finalise-reloaded :
      (delete_empty : Bool) (order : List Address) (s : StateDb) (j : Address) (o : StateObject)
      → IsOnce order
      → ((a : Address) → ltb 0 (s.dirties a) ≡ true → elem a order ≡ true)
      → IsEncodable s
      → ltb 0 (s.dirties j) ≡ true
      → s.state_objects j ≡ some o
      → IsCached o
      → b.open_storage j (b.storage_root (final_storage b o)) ≡ final_storage b o
      → (t : StateDb) × (finalise b delete_empty order s ≡ ok t)
        × (view b (reopened t) j
            ≡ (if is_leaving b delete_empty o then none else some (reloaded_view o)))
  finalise-reloaded delete_empty order s j o once all h dirty found cached opened =
      let (t, e, trie, _, _, _, _) = finalise-final b delete_empty order s once all h in
      let account = final_account-reloaded_view j o (h.placed j o found) cached opened in
      (
        t,
        e,
        view-reopened t j ∙ (elim (Bool-cases (is_leaving b delete_empty o)) [
          | inl goes ↦ rw (trie j, dirty, found, goes) refl
          | inr stays ↦ rw (trie j, dirty, found, stays) (ap some account)
        ]),
      )
