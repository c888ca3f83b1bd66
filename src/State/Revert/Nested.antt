-- ===== src/State/Revert/Nested.antt =====
-- A revert to a later snapshot keeps an earlier one.
use uranus.Prelude.{
  ℕ, ◌<◌, ◌≤◌, ◌≡◌, refl, sym, ◌∙◌, true, false, none, some, List, [], ◌∷◌, ◌++◌, leb, length,
  arith, Option-cases, Bool-cases, ap, inl, inr, Result, ok, panic, ◌>>=◌, >>=-returned, All,
  List-cases, length-append,
}
use uranus.State.Object.{Hash, Backend, StateObject}
use uranus.State.Db.{
  StateDb, Entry, Revision, create_object_change, reset_object_change, refund_change,
  add_log_change, add_preimage_change, touch_change, suicide_change, account_change,
  set_state_object, get_state_object, dirtied,
}
use uranus.State.Journal.{restore, undo, undo_all, drop_dirty, above, below, find_revision}
use uranus.State.View.{find_object, IsSound, IsRestorable}
use uranus.State.Revert.Views.{get_state_object-eq-find_object}
use uranus.State.Revert.Congruence.{find_object-deleted, deleted-restore, without_log}
use uranus.State.Revert.Steps.{IsSound-get_state_object, undo_all-append}

-- The entries above an index that lies in `base` or higher, and those below.
pub split_entries :
    (i : ℕ) (es base : List Entry)
    → length base ≤ i
    → (es1 : List Entry) × (es2 : List Entry) × (es ≡ es1 ++ es2)
      × (above i (es ++ base) ≡ es1)
      × (below i (es ++ base) ≡ es2 ++ base)
unfolding above below
split_entries i [] [] h = ([], [], refl, refl, refl)
split_entries i [] (x ∷ r) h = ([], [], refl, ground arith, ground arith)
split_entries i (e ∷ es) base h = elim (Bool-cases (leb i (length (es ++ base)))) [
  | inl t ↦
      let (es1, es2, p, q, r) = split_entries i es base h in
      (e ∷ es1, es2, ap (◌∷◌ e) p, rw (t, q), rw (t, r))
  | inr f ↦ ([], e ∷ es, refl, rw f, rw f)
]

-- With all the entries above `base` taken, `base` is left.
pub split_at_base :
    (es base : List Entry)
    → (above (length base) (es ++ base) ≡ es) × (below (length base) (es ++ base) ≡ base)
unfolding above below
split_at_base [] [] = (refl, refl)
split_at_base [] (x ∷ r) = (ground arith, ground arith)
split_at_base (e ∷ es) base =
    let (p, q) = split_at_base es base in
    let t : leb (length base) (length (es ++ base)) ≡ true =
      ground (arith, length-append {0} es base) in
    (rw t (ap (◌∷◌ e) p), rw t q)

-- The search passes over the revisions with smaller ids.
pub find_revision-append :
    (id : ℕ) (rs later : List Revision)
    → All (λ r. r.id < id) rs
    → find_revision id (rs ++ later)
      ≡ (elim (find_revision id later) [ none ↦ none | some (i, kept) ↦ some (i, rs ++ kept) ])
unfolding find_revision
find_revision-append id [] later h = ground arith
find_revision-append id (r ∷ rs) later h = ground (arith, find_revision-append id rs later h.1)

-- What a search finds among revisions is the index of one of them, and it keeps a prefix.
pub find_revision-index :
    (lo id : ℕ) (rs : List Revision) (i : ℕ) (kept : List Revision)
    → find_revision id rs ≡ some (i, kept)
    → All (λ r. lo ≤ r.journal_index) rs
    → lo ≤ i
unfolding find_revision
find_revision-index lo id [] i kept e h = absurd (ground arith)
find_revision-index lo id (r ∷ rs) i kept e h = elim (Option-cases (find_revision id rs)) [
  | inl n ↦ ground arith
  | inr ((i', kept'), n) ↦ ground (arith, find_revision-index lo id rs i' kept' n h.1)
]

pub find_revision-prefix :
    (id : ℕ) (rs : List Revision) (i : ℕ) (kept : List Revision)
    → find_revision id rs ≡ some (i, kept)
    → (dropped : List Revision) × (rs ≡ kept ++ dropped)
unfolding find_revision
find_revision-prefix id [] i kept e = absurd (ground arith)
find_revision-prefix id (r ∷ rs) i kept e = elim (Bool-cases (leb id r.id)) [
  | inl t ↦ (r ∷ rs, rw (← nothing_kept t) refl)
  | inr f ↦ elim (Option-cases (find_revision id rs)) [
    | inl n ↦ absurd (ground arith)
    | inr ((i', kept'), n) ↦
        let (dropped, p) = find_revision-prefix id rs i' kept' n in
        let q : kept ≡ r ∷ kept' = ground arith in (dropped, rw q (ap (◌∷◌ r) p))
  ]
]
  where
    nothing_kept : leb id r.id ≡ true → [] ≡ kept
    nothing_kept t = ground arith

module _ (b : Backend) where
  IsSound-drop_dirty : (e : Entry) (s : StateDb) → IsSound s → IsSound (drop_dirty e s)
  unfolding drop_dirty
  IsSound-drop_dirty e s h = elim (Option-cases (dirtied e)) [
    | inl n ↦ rw (n, drop_dirty) h
    | inr (a, n) ↦
        rw (n, drop_dirty)
          (record {
            placed = h.placed;
            gone = h.gone;
            counted = h.counted;
            restorable = h.restorable;
          })
  ]

  IsSound-write :
      (o : StateObject) (s : StateDb)
      → IsSound s
      → o.deleted ≡ false
      → IsSound (set_state_object o s)
  unfolding set_state_object
  IsSound-write o s h d = record {
    placed = λ j p m. ground (arith, h.placed j p);
    gone = λ j p m f. ground (arith, h.gone j p);
    counted = h.counted;
    restorable = h.restorable;
  }

  -- The state, if the call returned, is well formed.
  abbrev Sound : Result StateDb → Type 0
  Sound (ok s) = IsSound s
  Sound (panic e) = Unit

  unlogged : (x : Hash) (s : StateDb) → IsSound s → IsSound (without_log b x s)
  unlogged x s h = record {
    placed = h.placed;
    gone = h.gone;
    counted = omega arith;
    restorable = h.restorable;
  }

  undo-IsSound : (e : Entry) (s : StateDb) → IsSound s → IsRestorable e → Sound (undo b e s)
  unfolding undo
  undo-IsSound (create_object_change a) s h k = record {
    placed = λ j p m. ground (arith, h.placed j p);
    gone = λ j p m f. ground (arith, h.gone j p);
    counted = h.counted;
    restorable = h.restorable;
  }
  undo-IsSound (reset_object_change prev) s h k = IsSound-write prev s h k
  undo-IsSound (suicide_change a q v) s h k = elim (Option-cases (find_object b a s)) [
    | inl m ↦ rw (get_state_object-eq-find_object b a s, m, undo) (IsSound-get_state_object b a s h)
    | inr (o, m) ↦
        rw (get_state_object-eq-find_object b a s, m, undo)
          (IsSound-write (record o { suicided = q; balance = v }) (get_state_object b a s).1
            (IsSound-get_state_object b a s h) (find_object-deleted b a s o m))
  ]
  undo-IsSound (account_change a c) s h k = elim (Option-cases (find_object b a s)) [
    | inl m ↦ rw (get_state_object-eq-find_object b a s, m, undo) tt
    | inr (o, m) ↦
        rw (get_state_object-eq-find_object b a s, m, undo)
          (IsSound-write (restore c o) (get_state_object b a s).1 (IsSound-get_state_object b a s h)
            (deleted-restore b c o ∙ find_object-deleted b a s o m))
  ]
  undo-IsSound (refund_change r) s h k = record {
    placed = h.placed;
    gone = h.gone;
    counted = h.counted;
    restorable = h.restorable;
  }
  undo-IsSound (add_log_change x) s h k = elim (List-cases (s.logs x)) [
    | inl n ↦ rw (n, undo) tt
    | inr (l, r, n) ↦ rw (n, undo) (unlogged x s h)
  ]
  undo-IsSound (add_preimage_change x) s h k = record {
    placed = h.placed;
    gone = h.gone;
    counted = h.counted;
    restorable = h.restorable;
  }
  undo-IsSound (touch_change a) s h k = h

  undone-IsSound :
      (es : List Entry) (e : Entry)
      → ((s : StateDb) → IsSound s → Sound (undo_all b es s))
      → (r : Result StateDb) → Sound r
      → Sound (r >>= λ s1. undo_all b es (drop_dirty e s1))
  undone-IsSound es e ih (panic x) h = tt
  undone-IsSound es e ih (ok s1) h = ih (drop_dirty e s1) (IsSound-drop_dirty e s1 h)

  undo_all-IsSound :
      (es : List Entry) (s : StateDb) → All IsRestorable es → IsSound s → Sound (undo_all b es s)
  unfolding undo_all
  undo_all-IsSound [] s k h = h
  undo_all-IsSound (e ∷ es) s k h =
      undone-IsSound es e (λ t. undo_all-IsSound es t k.1) (undo b e s) (undo-IsSound e s h k.0)

  -- Undoing the newer part of some entries leaves a state in which the older part undoes.
  pub undo_newer :
      (es1 es2 : List Entry) (s : StateDb) {u : StateDb}
      → IsSound s
      → All IsRestorable es1
      → undo_all b (es1 ++ es2) s ≡ ok u
      → (m : StateDb) × (undo_all b es1 s ≡ ok m) × (undo_all b es2 m ≡ ok u) × IsSound m
  undo_newer es1 es2 s h k e =
      let (m, p, q) =
        >>=-returned (undo_all b es2) (undo_all b es1 s) (sym (undo_all-append b es1 es2 s) ∙ e) in
      (m, p, q, rw p at (undo_all-IsSound es1 s k h))
