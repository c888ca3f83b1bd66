-- ===== src/State/Revert/Since.antt =====
-- What holds of every state between a snapshot and the revert to it.
use uranus.Prelude.{
  ℕ, ◌+◌, ◌<◌, ◌≤◌, ◌≡◌, refl, sym, ◌∙◌, Option, none, some, List, [], ◌∷◌, ◌++◌, length,
  length-append, arith, Option-cases, ap, subst, inl, inr, ok, panic, All, All-append, All-mono,
  unknown_revision, All-append_right, All-append_left,
}
use mathlib.Core.List.{append_assoc}
use uranus.State.Object.{Backend}
use uranus.State.Db.{StateDb, Entry, Revision}
use uranus.State.Journal.{undo_all, above, below, find_revision, snapshot, revert_to_snapshot}
use uranus.State.View.{find_object, view, Same, Same-trans, IsSound, IsRestorable}
use uranus.State.Revert.Congruence.{Same-sym}
use uranus.State.Revert.Steps.{Step, back_again, undo_all-append}
use uranus.State.Revert.Nested.{
  split_entries, find_revision-append, find_revision-index, find_revision-prefix, undo_newer,
}

-- The revision that `snapshot` adds.
abbrev pub mark : StateDb → Revision
mark s = record { id = s.next_revision_id; journal_index = length s.entries }

pub record Since (b : Backend) (s0 s : StateDb) : Type 0 where
  pub added : List Entry
  pub journal : s.entries ≡ added ++ s0.entries
  pub undone : StateDb
  pub undoes : undo_all b added s ≡ ok undone
  pub back : Same b undone s0
  pub later : List Revision
  pub revisions : s.revisions ≡ s0.revisions ++ mark s0 ∷ later
  pub indices : All (λ r. length s0.entries ≤ r.journal_index) later
  pub sound : IsSound s

-- What a search found, with revisions put before those that it keeps.
abbrev prefixed : List Revision → Option (ℕ × List Revision) → Option (ℕ × List Revision)
prefixed rs none = none
prefixed rs (some (i, kept)) = some (i, rs ++ kept)

module _ (b : Backend) where
  pub Same-bookkeeping :
      (s : StateDb) (es : List Entry) (rs : List Revision) (n : ℕ)
      → Same b s (record s { entries = es; revisions = rs; next_revision_id = n })
  unfolding view find_object
  Same-bookkeeping s es rs n = record {
    trie = λ j. refl;
    views = λ j. refl;
    refund = refl;
    logs = λ h. refl;
    log_size = refl;
    preimages = λ h. refl;
    dirties = λ j n. refl;
  }

  pub Since-snapshot_self : (s : StateDb) → IsSound s → Since b s (snapshot s).1
  unfolding snapshot undo_all
  Since-snapshot_self s h = record {
    added = [];
    journal = refl;
    undone = (snapshot s).1;
    undoes = refl;
    back =
        Same-sym b
          (Same-bookkeeping s s.entries (s.revisions ++ mark s ∷ []) (s.next_revision_id + 1));
    later = [];
    revisions = refl;
    indices = tt;
    sound = record {
      placed = h.placed;
      gone = h.gone;
      counted = h.counted;
      restorable = h.restorable;
    };
  }

  pub Since-Step : {s0 s s' : StateDb} → Since b s0 s → Step b s s' → Since b s0 s'
  Since-Step {s0} {s} {s'} p q =
      let (v, e, k) = back_again b p.added s q.undone (Same-sym b q.back) p.undoes in
      record {
        added = q.added ++ p.added;
        journal = rw (q.journal, p.journal, append_assoc);
        undone = v;
        undoes = rw (undo_all-append b q.added p.added s', q.undoes) e;
        back = Same-trans b (Same-sym b k) p.back;
        later = p.later;
        revisions = q.revisions ∙ p.revisions;
        indices = p.indices;
        sound = q.sound;
      }

  -- Undoing the same entries after a change of the journal's bookkeeping.
  still_back :
      (s0 : StateDb) (es : List Entry) (s t : StateDb) {u : StateDb}
      → undo_all b es s ≡ ok u
      → Same b u s0
      → Same b s t
      → (v : StateDb) × (undo_all b es t ≡ ok v) × Same b v s0
  still_back s0 es s t e k h =
      let (v, p, q) = back_again b es s t h e in (v, p, Same-trans b (Same-sym b q) k)

  pub Since-snapshot : {s0 s : StateDb} → Since b s0 s → Since b s0 (snapshot s).1
  unfolding snapshot
  Since-snapshot {s0} {s} p =
      let (v, e, k) =
        still_back s0 p.added s (snapshot s).1 p.undoes p.back
          (Same-bookkeeping s s.entries (s.revisions ++ mark s ∷ []) (s.next_revision_id + 1)) in
      record {
        added = p.added;
        journal = p.journal;
        undone = v;
        undoes = e;
        back = k;
        later = p.later ++ mark s ∷ [];
        revisions = rw (p.revisions, append_assoc);
        indices =
            All-append (λ r. length s0.entries ≤ r.journal_index) p.later (mark s ∷ []) p.indices
              (rw p.journal (omega (arith, length-append p.added s0.entries)), tt);
        sound = record {
          placed = p.sound.placed;
          gone = p.sound.gone;
          counted = p.sound.counted;
          restorable = p.sound.restorable;
        };
      }

  abbrev reverted : StateDb → List Entry → List Revision → StateDb
  reverted m es rs = record m { entries = es; revisions = rs }

  -- A revert to a revision after the mark returns.
  Since-reverted :
      {s0 s : StateDb} (p : Since b s0 s) (i : ℕ) (kept dropped : List Revision)
      → p.later ≡ kept ++ dropped
      → length s0.entries ≤ i
      → (m : StateDb) × (undo_all b (above i s.entries) s ≡ ok m)
        × Since b s0 (reverted m (below i s.entries) (s0.revisions ++ mark s0 ∷ kept))
  Since-reverted {s0} {s} p i kept dropped e lo =
      let (es1, es2, whole, newer, older) = split_entries i p.added s0.entries lo in
      let restorable =
        subst (All IsRestorable)
          (p.journal
            ∙ (ap (λ (es : List Entry). es ++ s0.entries) whole ∙ append_assoc es1 es2 s0.entries))
          p.sound.restorable in
      let (m, u1, u2, ms) =
        undo_newer b es1 es2 s p.sound
          (All-append_left IsRestorable es1 (es2 ++ s0.entries) restorable)
          (ap (λ (es : List Entry). undo_all b es s) (sym whole) ∙ p.undoes) in
      let m' = reverted m (below i s.entries) (s0.revisions ++ mark s0 ∷ kept) in
      let (v, u3, k) = still_back s0 es2 m m' u2 p.back (
        Same-bookkeeping m (below i s.entries) (s0.revisions ++ mark s0 ∷ kept)
          m.next_revision_id) in
      (
        m,
        ap (λ (es : List Entry). undo_all b es s) (ap (above i) p.journal ∙ newer) ∙ u1,
        record {
          added = es2;
          journal = ap (below i) p.journal ∙ older;
          undone = v;
          undoes = u3;
          back = k;
          later = kept;
          revisions = refl;
          indices =
              All-append_left (λ r. length s0.entries ≤ r.journal_index) kept dropped
                (subst (All (λ r. length s0.entries ≤ r.journal_index)) e p.indices);
          sound = record {
            placed = ms.placed;
            gone = ms.gone;
            counted = ms.counted;
            restorable =
                subst (All IsRestorable) (sym (ap (below i) p.journal ∙ older))
                  (All-append_right IsRestorable es1 (es2 ++ s0.entries) restorable);
          };
        },
      )

  find_past_mark :
      (s0 : StateDb) (j : ℕ) (later : List Revision)
      → s0.next_revision_id < j
      → find_revision j (mark s0 ∷ later) ≡ prefixed (mark s0 ∷ []) (find_revision j later)
  unfolding find_revision
  find_past_mark s0 j later h = ground arith

  prefixed_twice :
      (s0 : StateDb) (found : Option (ℕ × List Revision))
      → prefixed s0.revisions (prefixed (mark s0 ∷ []) found)
        ≡ prefixed (s0.revisions ++ mark s0 ∷ []) found
  prefixed_twice s0 none = refl
  prefixed_twice s0 (some (i, kept)) = rw append_assoc

  -- The search for a revision after the mark.
  find_later :
      {s0 s : StateDb} (p : Since b s0 s) (j : ℕ)
      → All (λ r. r.id < s0.next_revision_id) s0.revisions
      → s0.next_revision_id < j
      → find_revision j s.revisions
        ≡ prefixed (s0.revisions ++ mark s0 ∷ []) (find_revision j p.later)
  find_later {s0} {s} p j numbered after =
      ap (find_revision j) p.revisions
      ∙ (find_revision-append j s0.revisions (mark s0 ∷ p.later) (
            All-mono (λ r. r.id < s0.next_revision_id) (λ r. r.id < j) s0.revisions
              (λ r h. omega arith) numbered)
          ∙ (ap (prefixed s0.revisions) (find_past_mark s0 j p.later after)
              ∙ prefixed_twice s0 (find_revision j p.later)))

  revert_missing :
      (j : ℕ) (s : StateDb)
      → find_revision j s.revisions ≡ none
      → revert_to_snapshot b j s ≡ panic unknown_revision
  unfolding revert_to_snapshot
  revert_missing j s h = rw (h, revert_to_snapshot)

  pub revert_found :
      (j i : ℕ) (kept : List Revision) (s m : StateDb)
      → find_revision j s.revisions ≡ some (i, kept)
      → undo_all b (above i s.entries) s ≡ ok m
      → revert_to_snapshot b j s ≡ ok (reverted m (below i s.entries) kept)
  unfolding revert_to_snapshot
  revert_found j i kept s m h e = rw (h, revert_to_snapshot, e)

  pub Since-revert_to_snapshot :
      {s0 s : StateDb} (p : Since b s0 s) (j : ℕ)
      → All (λ r. r.id < s0.next_revision_id) s0.revisions
      → s0.next_revision_id < j
      → (t : StateDb) → revert_to_snapshot b j s ≡ ok t
      → Since b s0 t
  Since-revert_to_snapshot {s0} {s} p j numbered after t h =
      let search = find_later p j numbered after in
      elim (Option-cases (find_revision j p.later)) [
        | inl n ↦
            absurd
              (cc (h, revert_missing j s (search ∙ ap (prefixed (s0.revisions ++ mark s0 ∷ [])) n)))
        | inr ((i, kept), n) ↦
            let (dropped, e) = find_revision-prefix j p.later i kept n in
            let (m, u, k) =
              Since-reverted p i kept dropped e
                (find_revision-index (length s0.entries) j p.later i kept n p.indices) in
            subst (Since b s0)
              (cc (
                h,
                revert_found j i (s0.revisions ++ mark s0 ∷ kept) s m
                    (search
                      ∙ (ap (prefixed (s0.revisions ++ mark s0 ∷ [])) n
                          ∙ ap (λ (rs : List Revision). some (i, rs))
                              (append_assoc s0.revisions (mark s0 ∷ []) kept)))
                    u,
              ))
              k
      ]

  pub find_mark :
      (s0 : StateDb) (later : List Revision)
      → find_revision s0.next_revision_id (mark s0 ∷ later) ≡ some (length s0.entries, [])
  unfolding find_revision
  find_mark s0 later = ground arith
