-- ===== src/State/Revert/Once.antt =====
-- A snapshot serves one revert.
use uranus.Prelude.{
  ℕ, ◌<◌, ◌≡◌, refl, ◌∙◌, none, List, [], ◌∷◌, arith, ap, ok, panic, unknown_revision, All,
}
use uranus.State.Object.{Backend}
use uranus.State.Db.{StateDb, Revision}
use uranus.State.Journal.{find_revision, snapshot, revert_to_snapshot}
use uranus.State.Run.{Op, run, IsWithin}
use uranus.State.View.{IsSound}
use uranus.State.Revert.Restores.{IsNumbered, revert_to_snapshot-run}

module _ (b : Backend) where
  find_revision-numbered :
      (id : ℕ) (rs : List Revision) → All (λ r. r.id < id) rs → find_revision id rs ≡ none
  unfolding find_revision
  find_revision-numbered id [] h = refl
  find_revision-numbered id (r ∷ rs) h = ground (arith, find_revision-numbered id rs h.1, h.0)

  revert_to_snapshot-unknown :
      (id : ℕ) (t : StateDb)
      → find_revision id t.revisions ≡ none
      → revert_to_snapshot b id t ≡ panic unknown_revision
  unfolding revert_to_snapshot
  revert_to_snapshot-unknown id t h = rw (h, revert_to_snapshot) refl

  -- After a snapshot of a well-formed state and calls that return, with nested snapshots and reverts
  -- to them among the calls but neither SetUnDelegateTimestamp nor a revert to this snapshot or an
  -- older one, the first RevertToSnapshot returns, and a second one to the same snapshot panics.
  pub revert_to_snapshot-again :
      (s : StateDb) (ops : List Op) {s' : StateDb}
      → IsSound s
      → IsNumbered s
      → All (IsWithin s.next_revision_id) ops
      → run b ops (snapshot s).1 ≡ ok s'
      → (t : StateDb) × (revert_to_snapshot b s.next_revision_id s' ≡ ok t)
        × (revert_to_snapshot b s.next_revision_id t ≡ panic unknown_revision)
  revert_to_snapshot-again s ops h n w e =
      let (t, u, r) = revert_to_snapshot-run b s ops h n w e in
      (
        t,
        u,
        revert_to_snapshot-unknown s.next_revision_id t (
            ap (find_revision s.next_revision_id) r.revisions
            ∙ find_revision-numbered s.next_revision_id s.revisions n.below),
      )
