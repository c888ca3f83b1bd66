-- ===== src/State/Revert/Congruence.antt =====
-- States that look the same are undone to states that look the same.
use uranus.Prelude.{
  ◌-◌, ◌^◌, ◌≡◌, ◌⊎◌, refl, sym, ◌∙◌, Bool, false, none, some, List, [], ◌∷◌, update, arith,
  Option-cases, ap, inl, inr, Result, ok, panic, ◌>>=◌, List-cases, nil_pointer, slice_bounds, ◌+◌,
  ◌%◌,
}
use uranus.Prelude.Int.{ℤ}
use uranus.State.Object.{Address, Hash, Backend, StateObject, new_object}
use uranus.State.Db.{
  Log, StateDb, Entry, Change, create_object_change, reset_object_change, refund_change,
  add_log_change, add_preimage_change, touch_change, suicide_change, account_change, balance_change,
  set_state_object, get_state_object, dirtied,
}
use uranus.State.Journal.{restore, undo, undo_all, drop_dirty, drop_last}
use uranus.State.View.{AccountView, object_view, find_object, view, Same, Same-trans}
use uranus.State.Revert.Views.{
  restore_view, object_view-restore, view-get_state_object, get_state_object-eq-find_object,
  view-set_state_object,
}

module _ (b : Backend) where
  pub Same-get_state_object : (a : Address) (s : StateDb) → Same b (get_state_object b a s).1 s
  unfolding get_state_object
  Same-get_state_object a s = record {
    trie = λ j. ground arith;
    views = view-get_state_object b a s;
    refund = ground arith;
    logs = λ h. ground arith;
    log_size = ground arith;
    preimages = λ h. ground arith;
    dirties = λ j n. ground arith;
  }

  pub Same-sym : {s t : StateDb} → Same b s t → Same b t s
  Same-sym p = record {
    trie = λ a. sym (p.trie a);
    views = λ a. sym (p.views a);
    refund = sym p.refund;
    logs = λ h. sym (p.logs h);
    log_size = sym p.log_size;
    preimages = λ h. sym (p.preimages h);
    dirties = λ a n. sym (p.dirties a n);
  }

  address-object_view :
      (o p : StateObject) → object_view b o ≡ object_view b p → o.address ≡ p.address
  unfolding object_view
  address-object_view o p h = ap (λ (w : AccountView). w.address) h

  pub Same-set_state_object :
      (o p : StateObject) {s t : StateDb}
      → Same b s t
      → o.deleted ≡ false
      → p.deleted ≡ false
      → object_view b o ≡ object_view b p
      → Same b (set_state_object o s) (set_state_object p t)
  unfolding set_state_object
  Same-set_state_object o p {s} {t} h ho hp e = record {
    trie = h.trie;
    views = λ j. ground (
      arith,
      view-set_state_object b o s j ho,
      view-set_state_object b p t j hp,
      address-object_view o p e,
      e,
      h.views j,
    );
    refund = h.refund;
    logs = h.logs;
    log_size = h.log_size;
    preimages = h.preimages;
    dirties = h.dirties;
  }

  pub find_object-deleted :
      (a : Address) (s : StateDb) (o : StateObject) → find_object b a s ≡ some o → o.deleted ≡ false
  unfolding find_object new_object
  find_object-deleted a s o h = ground arith

  pub deleted-restore : (c : Change) (o : StateObject) → (restore c o).deleted ≡ o.deleted
  unfolding restore
  deleted-restore (balance_change v) o = refl
  deleted-restore _ o = refl

  -- An account that is missing in one of two states with the same view is missing in the other.
  pub found_in_both :
      (a : Address) (s t : StateDb)
      → view b s a ≡ view b t a
      → ((find_object b a s ≡ none) × (find_object b a t ≡ none))
        ⊎ ((o : StateObject) × (p : StateObject) × (find_object b a s ≡ some o)
            × (find_object b a t ≡ some p)
            × (object_view b o ≡ object_view b p))
  unfolding view
  found_in_both a s t h = elim (Option-cases (find_object b a s)) [
    | inl m ↦ elim (Option-cases (find_object b a t)) [
      | inl n ↦ inl (m, n)
      | inr (p, q) ↦ absurd (ground arith)
    ]
    | inr (o, m) ↦ elim (Option-cases (find_object b a t)) [
      | inl n ↦ absurd (ground arith)
      | inr (p, q) ↦ inr (o, p, m, q, ground arith)
    ]
  ]

  dropped :
      (a : Address) {s t : StateDb}
      → Same b s t
      → Same b
          (record s { dirties = update s.dirties a (s.dirties a - 1) })
          (record t { dirties = update t.dirties a (t.dirties a - 1) })
  unfolding view find_object
  dropped a {s} {t} h = record {
    trie = h.trie;
    views = h.views;
    refund = h.refund;
    logs = h.logs;
    log_size = h.log_size;
    preimages = h.preimages;
    dirties = λ j n. ground (arith, h.dirties j n);
  }

  pub Same-drop_dirty :
      (e : Entry) {s t : StateDb} → Same b s t → Same b (drop_dirty e s) (drop_dirty e t)
  unfolding drop_dirty
  Same-drop_dirty e h = elim (Option-cases (dirtied e)) [
    | inl n ↦ rw (n, drop_dirty) h
    | inr (a, q) ↦ rw (q, drop_dirty) (dropped a h)
  ]

  -- `t` is undone as `s` is.
  abbrev pub UndoneAlike : Result StateDb → Result StateDb → Type 0
  UndoneAlike (panic e) r = Unit
  UndoneAlike (ok s) r = (t : StateDb) × (r ≡ ok t) × Same b s t

  undo_create :
      (a : Address) {s t : StateDb}
      → Same b s t
      → UndoneAlike (undo b (create_object_change a) s) (undo b (create_object_change a) t)
  unfolding undo view find_object
  undo_create a {s} {t} h = (
    _,
    refl,
    record {
      trie = h.trie;
      views = λ j. ground (arith, h.views j, h.trie j);
      refund = h.refund;
      logs = h.logs;
      log_size = h.log_size;
      preimages = h.preimages;
      dirties = h.dirties;
    },
  )

  undo_reset :
      (o : StateObject) {s t : StateDb}
      → Same b s t
      → Same b (set_state_object o s) (set_state_object o t)
  unfolding set_state_object view find_object
  undo_reset o h = record {
    trie = h.trie;
    views = λ j. ground (arith, h.views j);
    refund = h.refund;
    logs = h.logs;
    log_size = h.log_size;
    preimages = h.preimages;
    dirties = h.dirties;
  }

  -- The states after the two reads of an account.
  Same-read :
      (a : Address) {s t : StateDb}
      → Same b s t
      → Same b (get_state_object b a s).1 (get_state_object b a t).1
  Same-read a {s} {t} h =
      Same-trans b (Same-get_state_object a s)
        (Same-trans b h (Same-sym (Same-get_state_object a t)))

  account_missing :
      (a : Address) (c : Change) (s : StateDb)
      → find_object b a s ≡ none
      → undo b (account_change a c) s ≡ panic nil_pointer
  unfolding undo
  account_missing a c s m = ground (arith, get_state_object-eq-find_object b a s)

  pub account_found :
      (a : Address) (c : Change) (s : StateDb) (o : StateObject)
      → find_object b a s ≡ some o
      → undo b (account_change a c) s
        ≡ ok (set_state_object (restore c o) (get_state_object b a s).1)
  unfolding undo
  account_found a c s o m = rw (get_state_object-eq-find_object b a s, m, undo)

  undo_account :
      (a : Address) (c : Change) {s t : StateDb}
      → Same b s t
      → UndoneAlike (undo b (account_change a c) s) (undo b (account_change a c) t)
  undo_account a c {s} {t} h = elim (found_in_both a s t (h.views a)) [
    | inl (m, n) ↦ rw (account_missing a c s m) tt
    | inr (o, p, m, n, e) ↦ rw (account_found a c s o m) (
      _,
      account_found a c t p n,
      Same-set_state_object (restore c o) (restore c p) (Same-read a h)
          (deleted-restore c o ∙ find_object-deleted a s o m)
          (deleted-restore c p ∙ find_object-deleted a t p n)
          (object_view-restore b c o ∙ (ap (restore_view b c) e ∙ sym (object_view-restore b c p))),
    )
  ]

  abbrev revived : StateObject → Bool → ℤ → StateObject
  revived o prev v = record o { suicided = prev; balance = v }

  revived-cong :
      (o p : StateObject) (q : Bool) (v : ℤ)
      → object_view b o ≡ object_view b p
      → object_view b (revived o q v) ≡ object_view b (revived p q v)
  unfolding object_view
  revived-cong o p q v e = ap (λ (w : AccountView). record w { suicided = q; balance = v }) e

  suicide_missing :
      (a : Address) (q : Bool) (v : ℤ) (s : StateDb)
      → find_object b a s ≡ none
      → undo b (suicide_change a q v) s ≡ ok (get_state_object b a s).1
  unfolding undo
  suicide_missing a q v s m = rw (get_state_object-eq-find_object b a s, m, undo)

  pub suicide_found :
      (a : Address) (q : Bool) (v : ℤ) (s : StateDb) (o : StateObject)
      → find_object b a s ≡ some o
      → undo b (suicide_change a q v) s
        ≡ ok (set_state_object (revived o q v) (get_state_object b a s).1)
  unfolding undo
  suicide_found a q v s o m = rw (get_state_object-eq-find_object b a s, m, undo)

  undo_suicide :
      (a : Address) (q : Bool) (v : ℤ) {s t : StateDb}
      → Same b s t
      → UndoneAlike (undo b (suicide_change a q v) s) (undo b (suicide_change a q v) t)
  undo_suicide a q v {s} {t} h = elim (found_in_both a s t (h.views a)) [
    | inl (m, n) ↦ rw (suicide_missing a q v s m) (_, suicide_missing a q v t n, Same-read a h)
    | inr (o, p, m, n, e) ↦ rw (suicide_found a q v s o m) (
      _,
      suicide_found a q v t p n,
      Same-set_state_object (revived o q v) (revived p q v) (Same-read a h)
          (find_object-deleted a s o m) (find_object-deleted a t p n) (revived-cong o p q v e),
    )
  ]

  abbrev pub without_log : Hash → StateDb → StateDb
  without_log k s = record s {
    logs = update s.logs k (drop_last (s.logs k));
    log_size = (s.log_size + 2 ^ 64 - 1) % 2 ^ 64;
  }

  log_missing :
      (k : Hash) (s : StateDb) → s.logs k ≡ [] → undo b (add_log_change k) s ≡ panic slice_bounds
  unfolding undo
  log_missing k s e = rw (e, undo)

  pub log_found :
      (k : Hash) (s : StateDb) (l : Log) (r : List Log)
      → s.logs k ≡ l ∷ r
      → undo b (add_log_change k) s ≡ ok (without_log k s)
  unfolding undo
  log_found k s l r e = ground arith

  undo_log :
      (k : Hash) {s t : StateDb}
      → Same b s t
      → UndoneAlike (undo b (add_log_change k) s) (undo b (add_log_change k) t)
  unfolding view find_object
  undo_log k {s} {t} h = elim (List-cases (s.logs k)) [
    | inl e ↦ rw (log_missing k s e) tt
    | inr (x, r, e) ↦ rw (log_found k s x r e) (
      without_log k t,
      log_found k t x r (sym (h.logs k) ∙ e),
      record {
        trie = h.trie;
        views = h.views;
        refund = h.refund;
        logs = λ j. ground (arith, h.logs j, h.logs k);
        log_size = ground (arith, h.log_size);
        preimages = h.preimages;
        dirties = h.dirties;
      },
    )
  ]

  undo-UndoneAlike :
      (e : Entry) {s t : StateDb} → Same b s t → UndoneAlike (undo b e s) (undo b e t)
  unfolding undo view find_object
  undo-UndoneAlike (create_object_change a) h = undo_create a h
  undo-UndoneAlike (reset_object_change prev) h = (_, refl, undo_reset prev h)
  undo-UndoneAlike (suicide_change a q v) h = undo_suicide a q v h
  undo-UndoneAlike (account_change a c) h = undo_account a c h
  undo-UndoneAlike (refund_change r) {s} {t} h = (
    _,
    refl,
    record {
      trie = h.trie;
      views = h.views;
      refund = refl;
      logs = h.logs;
      log_size = h.log_size;
      preimages = h.preimages;
      dirties = h.dirties;
    },
  )
  undo-UndoneAlike (add_log_change k) h = undo_log k h
  undo-UndoneAlike (add_preimage_change k) h = (
    _,
    refl,
    record {
      trie = h.trie;
      views = h.views;
      refund = h.refund;
      logs = h.logs;
      log_size = h.log_size;
      preimages = λ j. ground (arith, h.preimages j);
      dirties = h.dirties;
    },
  )
  undo-UndoneAlike (touch_change a) {s} {t} h = (t, refl, h)

  undone_next :
      (es : List Entry) (e : Entry)
      → ((s t : StateDb) → Same b s t → UndoneAlike (undo_all b es s) (undo_all b es t))
      → (r q : Result StateDb) → UndoneAlike r q
      → UndoneAlike
          (r >>= λ s1. undo_all b es (drop_dirty e s1))
          (q >>= λ s1. undo_all b es (drop_dirty e s1))
  undone_next es e ih (panic x) q u = tt
  undone_next es e ih (ok s1) q (t1, m, k) =
      rw m (ih (drop_dirty e s1) (drop_dirty e t1) (Same-drop_dirty e k))

  -- Entries that undo in one state undo in any that looks the same.
  pub undo_all-UndoneAlike :
      (es : List Entry) (s t : StateDb)
      → Same b s t
      → UndoneAlike (undo_all b es s) (undo_all b es t)
  unfolding undo_all
  undo_all-UndoneAlike [] s t h = (t, refl, h)
  undo_all-UndoneAlike (e ∷ es) s t h =
      undone_next es e (undo_all-UndoneAlike es) (undo b e s) (undo b e t) (undo-UndoneAlike e h)
