-- ===== src/State/Journal.antt =====
-- core/state/journal.go: undoing journal entries; Snapshot and RevertToSnapshot of statedb.go.
use uranus.Prelude.{
  ℕ, ◌+◌, ◌-◌, ◌%◌, ◌^◌, false, Option, none, some, List, [], ◌∷◌, ◌++◌, ◌==◌, leb, if◌then◌else◌,
  update, Result, ok, panic, nil_pointer, unknown_revision, slice_bounds, ◌>>=◌, length,
}
use uranus.State.Object.{Backend, StateObject, set_state, set_code}
use uranus.State.Db.{
  Change, balance_change, nonce_change, storage_change, code_change, locked_balance_change,
  unlocked_balance_change, delegate_timestamp_change, undelegate_timestamp_change, Entry,
  create_object_change, reset_object_change, refund_change, add_log_change, add_preimage_change,
  touch_change, suicide_change, account_change, Revision, StateDb, dirtied, set_state_object,
  get_state_object,
}

-- What the `revert` of an account's change writes to the object.
unfoldable pub restore : Change → StateObject → StateObject
unfolding set_state set_code
restore (balance_change v) o = record o { balance = v }
restore (nonce_change n) o = record o { nonce = n }
restore (storage_change k v) o = set_state k v o
restore (code_change c h) o = set_code h c o
restore (locked_balance_change v) o = record o { locked_balance = v }
restore (unlocked_balance_change v) o = record o { unlocked_balance = some v }
restore (delegate_timestamp_change v) o = record o { delegate_timestamp = v }
restore (undelegate_timestamp_change v) o = record o { undelegate_timestamp = some v }

-- `logs[:len(logs)-1]`
unfoldable pub drop_last {ℓ} : {A : Type ℓ} → List A → List A
drop_last [] = []
drop_last (x ∷ []) = []
drop_last (x ∷ y ∷ r) = x ∷ drop_last (y ∷ r)

-- `j.dirties[*addr]--`, the key deleted at 0
unfoldable pub drop_dirty : Entry → StateDb → StateDb
unfolding dirtied
drop_dirty e s = elim (dirtied e) [
  | none ↦ s
  | some a ↦ record s { dirties = update s.dirties a (s.dirties a - 1) }
]

module _ (b : Backend) where
  -- The `revert` of an entry. A missing object is a nil pointer, but for `suicide_change`.
  unfoldable pub undo : Entry → StateDb → Result StateDb
  unfolding restore drop_last
  undo (create_object_change a) s = ok (record s {
    state_objects = update s.state_objects a none;
    state_objects_dirty = update s.state_objects_dirty a false;
  })
  undo (reset_object_change prev) s = ok (set_state_object prev s)
  undo (suicide_change a prev balance) s =
      let (found, s1) = get_state_object b a s in
      elim found [
        | none ↦ ok s1
        | some o ↦ ok (set_state_object (record o { suicided = prev; balance = balance }) s1)
      ]
  undo (account_change a c) s =
      let (found, s1) = get_state_object b a s in
      elim found [ none ↦ panic nil_pointer | some o ↦ ok (set_state_object (restore c o) s1) ]
  undo (refund_change prev) s = ok (record s { refund = prev })
  undo (add_log_change h) s = elim (s.logs h) [
    | [] ↦ panic slice_bounds
    | l ∷ ls ↦ ok (record s {
      logs = update s.logs h (drop_last (s.logs h));
      log_size = (s.log_size + 2 ^ 64 - 1) % 2 ^ 64;
    })
  ]
  undo (add_preimage_change h) s = ok (record s { preimages = update s.preimages h none })
  undo (touch_change a) s = ok s

  -- The loop of `journal.revert`, over the entries that it undoes.
  unfoldable pub undo_all : List Entry → StateDb → Result StateDb
  unfolding undo drop_dirty
  undo_all [] s = ok s
  undo_all (e ∷ es) s = undo e s >>= λ s1. undo_all es (drop_dirty e s1)

-- The entries above an index of the journal, newest first, and those below.
unfoldable pub above : ℕ → List Entry → List Entry
above i [] = []
above i (e ∷ es) = let rest = above i es in if leb i (length es) then e ∷ rest else []

unfoldable pub below : ℕ → List Entry → List Entry
below i [] = []
below i (e ∷ es) = let rest = below i es in if leb i (length es) then rest else e ∷ es

-- `Snapshot`
unfoldable pub snapshot : StateDb → ℕ × StateDb
snapshot s =
    let r : Revision = record { id = s.next_revision_id; journal_index = length s.entries } in
    (
      s.next_revision_id,
      record s { next_revision_id = s.next_revision_id + 1; revisions = s.revisions ++ r ∷ [] },
    )

-- The search of `RevertToSnapshot`: the first revision whose id is at least the given one. The
-- journal index of a match, and the revisions before it.
unfoldable pub find_revision : ℕ → List Revision → Option (ℕ × List Revision)
find_revision id [] = none
find_revision id (r ∷ rs) =
    let later : Option (ℕ × List Revision) = elim (find_revision id rs) [
      | none ↦ none
      | some (i, kept) ↦ some (i, r ∷ kept)
    ] in
    if leb id r.id then if r.id == id then some (r.journal_index, []) else none else later

unfoldable pub revert_to_snapshot : Backend → ℕ → StateDb → Result StateDb
unfolding find_revision undo_all above below
revert_to_snapshot b id s = elim (find_revision id s.revisions) [
  | none ↦ panic unknown_revision
  | some (i, kept) ↦ undo_all b (above i s.entries) s >>= λ s1.
      ok (record s1 { entries = below i s.entries; revisions = kept })
]
