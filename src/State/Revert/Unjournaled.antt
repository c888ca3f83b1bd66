-- ===== src/State/Revert/Unjournaled.antt =====
-- SetUnDelegateTimestamp calls the setter that journals nothing.
use mathlib.Core.List.{append-nil}
use uranus.Prelude.{
  ◌≡◌, refl, sym, ap, ◌∙◌, some, [], ◌∷◌, length, arith, Option-cases, inl, inr, ok,
}
use uranus.Prelude.Int.{ℤ}
use uranus.State.Object.{Address, Backend, StateObject}
use uranus.State.Db.{StateDb, get_state_object, get_or_new_state_object, set_state_object}
use uranus.State.Journal.{undo_all, above, below, find_revision, snapshot, revert_to_snapshot}
use uranus.State.Ops
use uranus.State.View.{AccountView, object_view, find_object, view, IsSound}
use uranus.State.Revert.Views.{view-set_state_object, get_state_object-eq-find_object}
use uranus.State.Revert.Congruence.{find_object-deleted}
use uranus.State.Revert.Creation.{address-find_object}
use uranus.State.Revert.Nested.{split_at_base, find_revision-append}
use uranus.State.Revert.Since.{mark, find_mark, revert_found, Same-bookkeeping}
use uranus.State.Revert.Restores.{IsNumbered}

module _ (b : Backend) where
  abbrev stamped : ℤ → StateObject → StateObject
  stamped v o = record o { undelegate_timestamp = some v }

  set_undelegate_timestamp_found :
      (a : Address) (v : ℤ) (s : StateDb) (o : StateObject)
      → find_object b a s ≡ some o
      → Ops.set_undelegate_timestamp b a v s
        ≡ set_state_object (stamped v o) (get_state_object b a s).1
  unfolding Ops.set_undelegate_timestamp get_or_new_state_object
  set_undelegate_timestamp_found a v s o m = rw (
    get_state_object-eq-find_object b a s,
    m,
    Ops.set_undelegate_timestamp,
    get_or_new_state_object,
  )

  journal_kept :
      (a : Address) (o : StateObject) (s : StateDb)
      → ((set_state_object o (get_state_object b a s).1).entries ≡ s.entries)
        × ((set_state_object o (get_state_object b a s).1).revisions ≡ s.revisions)
  unfolding set_state_object get_state_object
  journal_kept a o s = (ground arith, ground arith)

  entries_snapshot : (s : StateDb) → (snapshot s).1.entries ≡ s.entries
  unfolding snapshot
  entries_snapshot s = refl

  find_snapshot :
      (s : StateDb)
      → IsNumbered s
      → find_revision s.next_revision_id (snapshot s).1.revisions
        ≡ some (length s.entries, s.revisions)
  unfolding snapshot
  find_snapshot s n =
      find_revision-append s.next_revision_id s.revisions (mark s ∷ []) n.below
      ∙ rw (find_mark b s [], append-nil)

  abbrev stamped_view : ℤ → AccountView → AccountView
  stamped_view v w = record w { undelegate_timestamp = some v }

  found_of_view :
      (a : Address) (s : StateDb) (w : AccountView)
      → view b s a ≡ some w
      → (o : StateObject) × (find_object b a s ≡ some o) × (object_view b o ≡ w)
  unfolding view
  found_of_view a s w h = elim (Option-cases (find_object b a s)) [
    | inl n ↦ absurd (ground arith)
    | inr (o, n) ↦ (o, n, ground arith)
  ]

  -- The account behind a snapshot, and its object with a new stamp.
  stamped_state :
      (a : Address) (v : ℤ) (s : StateDb) (o : StateObject)
      → find_object b a s ≡ some o
      → Ops.set_undelegate_timestamp b a v (snapshot s).1
        ≡ set_state_object (stamped v o) (get_state_object b a (snapshot s).1).1
  stamped_state a v s o m =
      set_undelegate_timestamp_found a v (snapshot s).1 o (unfold snapshot find_object in m)

  nothing_undone :
      (s t : StateDb)
      → t.entries ≡ s.entries
      → undo_all b (above (length s.entries) t.entries) t ≡ ok t
  unfolding undo_all
  nothing_undone s t h = rw (h, (split_at_base [] s.entries).0)

  object_view-stamped :
      (v : ℤ) (o : StateObject) (w : AccountView)
      → object_view b o ≡ w
      → object_view b (stamped v o) ≡ stamped_view v w
  unfolding object_view
  object_view-stamped v o w e = ap (stamped_view v) e

  view-stamped :
      (a : Address) (v : ℤ) (s : StateDb) (o : StateObject) (w : AccountView)
      → IsSound s
      → find_object b a s ≡ some o
      → object_view b o ≡ w
      → (r : StateDb)
      → view b (set_state_object (stamped v o) r) a
        ≡ some (record w { undelegate_timestamp = some v })
  view-stamped a v s o w h m e r = ground (
    arith,
    view-set_state_object b (stamped v o) r a (find_object-deleted b a s o m),
    address-find_object b a s o h m,
    object_view-stamped v o w e,
  )

  -- An undelegate timestamp that is set on an existing account after a snapshot is still there when
  -- the state has been reverted to that snapshot.
  pub undelegate_timestamp-revert :
      (s : StateDb) (a : Address) (v : ℤ) (w : AccountView)
      → IsSound s
      → IsNumbered s
      → view b s a ≡ some w
      → (t : StateDb) × (revert_to_snapshot b s.next_revision_id
            (Ops.set_undelegate_timestamp b a v (snapshot s).1)
          ≡ ok t)
        × (view b t a ≡ some (record w { undelegate_timestamp = some v }))
  undelegate_timestamp-revert s a v w h n seen =
      let (o, m, e) = found_of_view a s w seen in
      let t = set_state_object (stamped v o) (get_state_object b a (snapshot s).1).1 in
      let (j, r) = journal_kept a (stamped v o) (snapshot s).1 in
      let found = ap (find_revision s.next_revision_id) r ∙ find_snapshot s n in
      (
        _,
        ap (revert_to_snapshot b s.next_revision_id) (stamped_state a v s o m)
            ∙ revert_found b s.next_revision_id (length s.entries) s.revisions t t found
                (nothing_undone s t (j ∙ entries_snapshot s)),
        sym (
              (Same-bookkeeping b t (below (length s.entries) t.entries) s.revisions
                  t.next_revision_id).views
                a)
            ∙ view-stamped a v s o w h m e (get_state_object b a (snapshot s).1).1,
      )
