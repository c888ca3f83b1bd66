-- ===== src/State/Revert/Restores.antt =====
-- The theorems about Snapshot and RevertToSnapshot, for any calls made in between.
use uranus.Prelude.{
  ◌<◌, ◌≡◌, refl, ◌∙◌, some, List, [], ◌∷◌, length, arith, ap, subst, ok, >>=-returned, All,
}
use mathlib.Core.List.{append-nil}
use uranus.State.Object.{Backend}
use uranus.State.Db.{StateDb, Entry}
use uranus.State.Journal.{undo_all, above, below, find_revision, snapshot, revert_to_snapshot}
use uranus.State.Run.{Op, apply, run, IsWithin}
use uranus.State.View.{Same, Same-trans, IsSound}
use uranus.State.Revert.Congruence.{Same-sym}
use uranus.State.Revert.Steps.{Step-get_state_object}
use uranus.State.Revert.Operations.{
  Step-set_balance, Step-sub_balance, Step-set_nonce, Step-set_locked_balance,
  Step-set_delegate_timestamp, Step-set_unlocked_balance, Step-set_storage, Step-set_contract_code,
}
use uranus.State.Revert.Others.{
  Step-add_balance, Step-create_account, Step-suicide, Step-add_refund, Step-add_preimage,
  Step-add_log,
}
use uranus.State.Revert.Reads.{Step-get_storage, Step-get_contract_code}
use uranus.State.Revert.Nested.{split_at_base, find_revision-append}
use uranus.State.Revert.Since.{
  Since, mark, Since-snapshot_self, Same-bookkeeping, Since-Step, Since-snapshot,
  Since-revert_to_snapshot, revert_found, find_mark,
}

-- The ids of the revisions are below the next one.
pub record IsNumbered (s : StateDb) : Type 0 where
  pub below : All (λ r. r.id < s.next_revision_id) s.revisions

module _ (b : Backend) where
  Since-apply :
      (op : Op) {s0 s : StateDb} (t : StateDb)
      → IsNumbered s0
      → Since b s0 s
      → IsWithin s0.next_revision_id op
      → apply b op s ≡ ok t
      → Since b s0 t
  unfolding apply
  Since-apply (Op.read a) {s0} {s} t n p w e =
      subst (Since b s0) (ground arith) (Since-Step b p (Step-get_state_object b a s p.sound))
  Since-apply (Op.read_code a) {s0} {s} t n p w e =
      subst (Since b s0) (ground arith) (Since-Step b p (Step-get_contract_code b a s p.sound))
  Since-apply (Op.read_storage a k) {s0} {s} t n p w e =
      subst (Since b s0) (ground arith) (Since-Step b p (Step-get_storage b a k s p.sound))
  Since-apply (Op.create_account a) {s0} {s} t n p w e =
      subst (Since b s0) (ground arith) (Since-Step b p (Step-create_account b a s p.sound))
  Since-apply (Op.suicide a) {s0} {s} t n p w e =
      subst (Since b s0) (ground arith) (Since-Step b p (Step-suicide b a s p.sound))
  Since-apply (Op.add_balance a v) {s0} {s} t n p w e =
      subst (Since b s0) (ground arith) (Since-Step b p (Step-add_balance b a v s p.sound))
  Since-apply (Op.sub_balance a v) {s0} {s} t n p w e =
      subst (Since b s0) (ground arith) (Since-Step b p (Step-sub_balance b a v s p.sound))
  Since-apply (Op.set_balance a v) {s0} {s} t n p w e =
      subst (Since b s0) (ground arith) (Since-Step b p (Step-set_balance b a v s p.sound))
  Since-apply (Op.set_locked_balance a v) {s0} {s} t n p w e =
      subst (Since b s0) (ground arith) (Since-Step b p (Step-set_locked_balance b a v s p.sound))
  Since-apply (Op.set_unlocked_balance a v) {s0} {s} t n p w e =
      Since-Step b p (Step-set_unlocked_balance b a v s t p.sound e)
  Since-apply (Op.set_delegate_timestamp a v) {s0} {s} t n p w e =
      subst (Since b s0) (ground arith)
        (Since-Step b p (Step-set_delegate_timestamp b a v s p.sound))
  Since-apply (Op.set_undelegate_timestamp a v) t n p w e = absurd w
  Since-apply (Op.set_nonce a v) {s0} {s} t n p w e =
      subst (Since b s0) (ground arith) (Since-Step b p (Step-set_nonce b a v s p.sound))
  Since-apply (Op.set_contract_code a c) {s0} {s} t n p w e =
      subst (Since b s0) (ground arith) (Since-Step b p (Step-set_contract_code b a c s p.sound))
  Since-apply (Op.set_storage a k v) {s0} {s} t n p w e =
      subst (Since b s0) (ground arith) (Since-Step b p (Step-set_storage b a k v s p.sound))
  Since-apply (Op.add_log l) {s0} {s} t n p w e =
      subst (Since b s0) (ground arith) (Since-Step b p (Step-add_log b l s p.sound))
  Since-apply (Op.add_refund gas) {s0} {s} t n p w e =
      subst (Since b s0) (ground arith) (Since-Step b p (Step-add_refund b gas s p.sound))
  Since-apply (Op.add_preimage k image) {s0} {s} t n p w e =
      subst (Since b s0) (ground arith) (Since-Step b p (Step-add_preimage b k image s p.sound))
  Since-apply Op.take_snapshot {s0} {s} t n p w e =
      subst (Since b s0) (ground arith) (Since-snapshot b p)
  Since-apply (Op.revert_to j) t n p w e = Since-revert_to_snapshot b p j n.below w t e

  Since-run :
      (ops : List Op) {s0 : StateDb} (s t : StateDb)
      → IsNumbered s0
      → Since b s0 s
      → All (IsWithin s0.next_revision_id) ops
      → run b ops s ≡ ok t
      → Since b s0 t
  unfolding run
  Since-run [] {s0} s t n p w e = subst (Since b s0) (ground arith) p
  Since-run (op ∷ ops) {s0} s t n p w e =
      let (s1, e1, e2) = >>=-returned (run b ops) (apply b op s) e in
      Since-run ops s1 t n (Since-apply op s1 n p w.0 e1) w.1 e2

  revert_to_mark :
      {s0 s : StateDb} (p : Since b s0 s)
      → IsNumbered s0
      → find_revision s0.next_revision_id s.revisions ≡ some (length s0.entries, s0.revisions)
  revert_to_mark {s0} {s} p n =
      ap (find_revision s0.next_revision_id) p.revisions
      ∙ (find_revision-append s0.next_revision_id s0.revisions (mark s0 ∷ p.later) n.below
          ∙ rw (find_mark b s0 p.later, append-nil))

  -- What RevertToSnapshot makes of a state: all that callers can read is as it was at the snapshot,
  -- and so are the journal's entries, its dirty counts but that of `ripemd`, and the older revisions.
  pub record Restored (s0 t : StateDb) : Type 0 where
    pub same : Same b t s0
    pub entries : t.entries ≡ s0.entries
    pub revisions : t.revisions ≡ s0.revisions

  -- After Snapshot of a well-formed state and any sequence of reads, writes, nested snapshots and
  -- reverts to them that returns, with neither SetUnDelegateTimestamp nor a revert to this
  -- snapshot or an older one among them, RevertToSnapshot does not panic, and all that a caller
  -- can read, the entries of the journal, its dirty counts but that of the RIPEMD precompile,
  -- which touch raises outside the journal, and the older revisions are as they were at the
  -- snapshot.
  pub revert_to_snapshot-run :
      (s : StateDb) (ops : List Op) {s' : StateDb}
      → IsSound s
      → IsNumbered s
      → All (IsWithin s.next_revision_id) ops
      → run b ops (snapshot s).1 ≡ ok s'
      → (t : StateDb) × (revert_to_snapshot b s.next_revision_id s' ≡ ok t) × Restored s t
  revert_to_snapshot-run s ops {s'} h n w e =
      let p = Since-run ops (snapshot s).1 s' n (Since-snapshot_self b s h) w e in
      let (whole, rest) = split_at_base p.added s.entries in
      (
        _,
        revert_found b s.next_revision_id (length s.entries) s.revisions s' p.undone
            (revert_to_mark p n)
            (ap (λ (es : List Entry). undo_all b es s')
                (ap (above (length s.entries)) p.journal ∙ whole)
              ∙ p.undoes),
        record {
          same =
              Same-trans b
                (Same-sym b (
                  Same-bookkeeping b p.undone (below (length s.entries) s'.entries) s.revisions
                    p.undone.next_revision_id))
                p.back;
          entries = ap (below (length s.entries)) p.journal ∙ rest;
          revisions = refl;
        },
      )
