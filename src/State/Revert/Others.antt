-- ===== src/State/Revert/Others.antt =====
-- The operations that create, touch or mark accounts, and those on the other values of the state,
-- are steps.
use uranus.Prelude.{
  ℕ, ◌+◌, ◌^◌, ◌≡◌, refl, sym, ◌∙◌, subst, true, Option, none, some, List, [], ◌∷◌, ◌++◌, update,
  arith, fun_ext, Option-cases, Bool-cases, ap, inl, inr, ok, update_self, ◌%◌, All,
}
use uranus.Prelude.Int.{ℤ, pos, is_zero}
use uranus.State.Object.{
  Address, Hash, Bytes, Backend, StateObject, new_object, empty_account, is_empty, mark_suicided,
}
use uranus.State.Db.{
  Log, StateDb, Entry, append, refund_change, add_log_change, add_preimage_change, touch_change,
  suicide_change, set_state_object, get_state_object, get_or_new_state_object, create_object,
  creation,
}
use uranus.State.Journal.{undo, drop_dirty, drop_last}
use uranus.State.Ops
use uranus.State.Ops.{
  write_change, object_set_balance, object_add_balance, object_sub_balance, touch,
}
use uranus.State.View.{find_object, view, Same, IsSound, IsRestorable}
use uranus.State.Revert.Views.{get_state_object-eq-find_object, view-set_state_object}
use uranus.State.Revert.Steps.{
  Step, Step-refl, Step-trans, undo_one, Step-get_state_object, found_read,
}
use uranus.State.Revert.Congruence.{suicide_found, log_found, find_object-deleted, without_log}
use uranus.State.Revert.Operations.{Step-balance}
use uranus.State.Revert.Creation.{
  Step-create_object, address-find_object, find_object-get_state_object, view_found, view-append,
  view-drop_dirty, IsSound-set_state_object, get_or_new_state_object-Obtained, Step-stored,
}

module _ (b : Backend) where
  -- An operation that journals one entry.
  Step-entry :
      (e : Entry) (s s' u : StateDb)
      → s'.entries ≡ e ∷ s.entries
      → undo b e s' ≡ ok u
      → Same b (drop_dirty e u) s
      → s'.revisions ≡ s.revisions
      → s'.next_revision_id ≡ s.next_revision_id
      → IsSound s'
      → Step b s s'
  Step-entry e s s' u j m k r n h = record {
    added = e ∷ [];
    journal = j;
    undone = drop_dirty e u;
    undoes = undo_one b e s' u m;
    back = k;
    revisions = r;
    next_revision_id = n;
    sound = h;
  }

  undo-touch : (a : Address) (s : StateDb) → undo b (touch_change a) s ≡ ok s
  unfolding undo
  undo-touch a s = refl

  Same-untouched :
      (o : StateObject) (s : StateDb) → Same b (drop_dirty (touch_change o.address) (touch o s)) s
  unfolding touch append drop_dirty view find_object
  Same-untouched o s = record {
    trie = λ j. ground arith;
    views = λ j. ground arith;
    refund = ground arith;
    logs = λ h. ground arith;
    log_size = ground arith;
    preimages = λ h. ground arith;
    dirties = λ j n. ground arith;
  }

  touched :
      (o : StateObject) (s : StateDb) → (touch o s).entries ≡ touch_change o.address ∷ s.entries
  unfolding touch append
  touched o s = ground arith

  IsSound-touch : (o : StateObject) (s : StateDb) → IsSound s → IsSound (touch o s)
  unfolding touch append
  IsSound-touch o s h = record {
    restorable = subst (All IsRestorable) (sym (touched o s)) (tt, h.restorable);
    placed = λ j p e. ground (arith, h.placed j p);
    gone = λ j p e f. ground (arith, h.gone j p);
    counted = ground (arith, h.counted);
  }

  Step-touch : (o : StateObject) (s : StateDb) → IsSound s → Step b s (touch o s)
  Step-touch o s h =
      Step-entry (touch_change o.address) s (touch o s) (touch o s)
        (unfold touch append in ground arith) (undo-touch o.address (touch o s))
        (Same-untouched o s) (unfold touch append in ground arith)
        (unfold touch append in ground arith) (IsSound-touch o s h)

  pub Step-add_balance :
      (a : Address) (v : ℤ) (s : StateDb) → IsSound s → Step b s (Ops.add_balance b a v s)
  unfolding Ops.add_balance object_add_balance
  Step-add_balance a v s h =
      let got = get_or_new_state_object-Obtained b a s h in
      let r = get_or_new_state_object b a s in
      elim (Bool-cases (is_zero v)) [
        | inl z ↦ elim (Bool-cases (is_empty b r.0)) [
          | inl y ↦ rw (z, y) (Step-trans b got.step (Step-touch r.0 r.1 got.step.sound))
          | inr n ↦ rw (z, n) got.step
        ]
        | inr n ↦ rw n (Step-balance b _ got)
      ]

  set_state_object_twice :
      (o p : StateObject) (s : StateDb)
      → o.address ≡ p.address
      → set_state_object p (set_state_object o s) ≡ set_state_object p s
  unfolding set_state_object
  set_state_object_twice o p s e =
      ap (λ (m : Address → Option StateObject). record s { state_objects = m })
        (fun_ext λ j. ground arith)

  create_account-stored :
      (a : Address) (s : StateDb)
      → Step b s (create_object b a s).2
      → ((p : StateObject)
          → Step b s (
              set_state_object
                (record (new_object b a empty_account) { balance = p.balance })
                (append (creation a (get_state_object b a s).0) (get_state_object b a s).1)))
      → Step b s (Ops.create_account b a s)
  unfolding Ops.create_account create_object new_object
  create_account-stored a s h k = elim (Option-cases (get_state_object b a s).0) [
    | inl m ↦ rw (m, Ops.create_account) h
    | inr (p, m) ↦
        rw (m, Ops.create_account)
          (subst (Step b s) (sym (set_state_object_twice _ _ _ refl)) (k p))
  ]

  pub Step-create_account :
      (a : Address) (s : StateDb) → IsSound s → Step b s (Ops.create_account b a s)
  Step-create_account a s h = create_account-stored a s (Step-create_object b a s h) λ p.
      Step-stored b a (record (new_object b a empty_account) { balance = p.balance }) s h
        (unfold new_object in refl) (unfold new_object in refl)

  abbrev dead : StateObject → StateObject
  dead o = record o { suicided = true; balance = pos 0 }

  abbrev killed : Address → StateObject → StateDb → StateDb
  killed a o s = set_state_object (dead o) (append (suicide_change a o.suicided o.balance) s)

  Same-unkilled :
      (a : Address) (o : StateObject) (s : StateDb)
      → o.address ≡ a
      → find_object b a s ≡ some o
      → Same b
          (drop_dirty (suicide_change a o.suicided o.balance) (set_state_object o (killed a o s)))
          s
  unfolding append set_state_object drop_dirty
  Same-unkilled a o s e m = record {
    trie = λ j. refl;
    views = λ j. ground (
      arith,
      view-drop_dirty b (suicide_change a o.suicided o.balance) (set_state_object o (killed a o s))
          j,
      view-set_state_object b o (killed a o s) j (find_object-deleted b a s o m),
      view-set_state_object b (dead o) (append (suicide_change a o.suicided o.balance) s) j
          (find_object-deleted b a s o m),
      view-append b (suicide_change a o.suicided o.balance) s j,
      view_found b a s o m,
    );
    refund = refl;
    logs = λ h. refl;
    log_size = refl;
    preimages = λ h. refl;
    dirties = λ j n. ground arith;
  }

  killed_live :
      (a : Address) (o : StateObject) (s : StateDb)
      → (killed a o s).state_objects o.address ≡ some (dead o)
  unfolding set_state_object
  killed_live a o s = ground arith

  Step-killed :
      (a : Address) (o : StateObject) (s : StateDb)
      → IsSound s
      → find_object b a s ≡ some o
      → Step b s (killed a o s)
  Step-killed a o s h m =
      let e = address-find_object b a s o h m in
      let d = find_object-deleted b a s o m in
      let (found, read) =
        found_read b a (killed a o s) (dead o)
          (ap (λ (j : Address). (killed a o s).state_objects j) (sym e) ∙ killed_live a o s) d in
      Step-entry (suicide_change a o.suicided o.balance) s (killed a o s)
        (set_state_object o (killed a o s)) (unfold append set_state_object in refl)
        (suicide_found b a o.suicided o.balance (killed a o s) (dead o) found
          ∙ ap (λ (t : StateDb). ok (set_state_object o t)) read)
        (Same-unkilled a o s e m) (unfold append set_state_object in refl)
        (unfold append set_state_object in refl)
        (IsSound-set_state_object b (dead o) (suicide_change a o.suicided o.balance) s h tt d)

  pub Step-suicide : (a : Address) (s : StateDb) → IsSound s → Step b s (Ops.suicide b a s).1
  unfolding Ops.suicide mark_suicided
  Step-suicide a s h = elim (Option-cases (find_object b a s)) [
    | inl m ↦
        rw (get_state_object-eq-find_object b a s, m, Ops.suicide) (Step-get_state_object b a s h)
    | inr (o, m) ↦
        rw (get_state_object-eq-find_object b a s, m, Ops.suicide)
          (Step-trans b (Step-get_state_object b a s h) (
            Step-killed a o (get_state_object b a s).1 (Step-get_state_object b a s h).sound
              (find_object-get_state_object b a s ∙ m)))
  ]

  Same-refunded : (s : StateDb) (es : List Entry) → Same b (record s { entries = es }) s
  unfolding view find_object
  Same-refunded s es = record {
    trie = λ j. refl;
    views = λ j. refl;
    refund = refl;
    logs = λ h. refl;
    log_size = refl;
    preimages = λ h. refl;
    dirties = λ j n. refl;
  }

  undo-refund : (r : ℕ) (s : StateDb) → undo b (refund_change r) s ≡ ok (record s { refund = r })
  unfolding undo
  undo-refund r s = refl

  pub Step-add_refund : (gas : ℕ) (s : StateDb) → IsSound s → Step b s (Ops.add_refund gas s)
  unfolding Ops.add_refund append drop_dirty
  Step-add_refund gas s h =
      Step-entry (refund_change s.refund) s (Ops.add_refund gas s)
        (record (Ops.add_refund gas s) { refund = s.refund }) refl
        (undo-refund s.refund (Ops.add_refund gas s))
        (Same-refunded s (refund_change s.refund ∷ s.entries)) refl refl
        (record {
          placed = h.placed;
          gone = h.gone;
          counted = h.counted;
          restorable = (tt, h.restorable);
        })

  undo-preimage :
      (k : Hash) (s : StateDb)
      → undo b (add_preimage_change k) s ≡ ok (record s { preimages = update s.preimages k none })
  unfolding undo
  undo-preimage k s = refl

  abbrev seen : Hash → Bytes → StateDb → StateDb
  seen k image s = record s {
    entries = add_preimage_change k ∷ s.entries;
    preimages = update s.preimages k (some image);
  }

  Same-unseen :
      (k : Hash) (image : Bytes) (s : StateDb)
      → s.preimages k ≡ none
      → Same b
          (drop_dirty
            (add_preimage_change k)
            (record (seen k image s) { preimages = update (seen k image s).preimages k none }))
          s
  unfolding view find_object drop_dirty
  Same-unseen k image s m = record {
    trie = λ j. refl;
    views = λ j. refl;
    refund = refl;
    logs = λ h. refl;
    log_size = refl;
    preimages = λ h. ground arith;
    dirties = λ j n. refl;
  }

  Step-preimage :
      (k : Hash) (image : Bytes) (s : StateDb)
      → IsSound s
      → s.preimages k ≡ none
      → Step b s (seen k image s)
  Step-preimage k image s h m =
      Step-entry (add_preimage_change k) s (seen k image s)
        (record (seen k image s) { preimages = update (seen k image s).preimages k none }) refl
        (undo-preimage k (seen k image s)) (Same-unseen k image s m) refl refl
        (record {
          placed = h.placed;
          gone = h.gone;
          counted = h.counted;
          restorable = (tt, h.restorable);
        })

  pub Step-add_preimage :
      (k : Hash) (image : Bytes) (s : StateDb) → IsSound s → Step b s (Ops.add_preimage k image s)
  unfolding Ops.add_preimage append
  Step-add_preimage k image s h = elim (Option-cases (s.preimages k)) [
    | inl m ↦ rw (m, Ops.add_preimage) (Step-preimage k image s h m)
    | inr (x, m) ↦ rw (m, Ops.add_preimage) (Step-refl b s h)
  ]

  drop_last-append {ℓ} : {A : Type ℓ} (xs : List A) (x : A) → drop_last (xs ++ x ∷ []) ≡ xs
  unfolding drop_last
  drop_last-append [] x = refl
  drop_last-append (y ∷ []) x = refl
  drop_last-append (y ∷ z ∷ r) x = ap (◌∷◌ y) (drop_last-append (z ∷ r) x)

  append_nonempty {ℓ} :
      {A : Type ℓ} (xs : List A) (x : A) → (y : A) × (r : List A) × (xs ++ x ∷ [] ≡ y ∷ r)
  append_nonempty [] x = (x, [], refl)
  append_nonempty (y ∷ r) x = (y, r ++ x ∷ [], refl)

  abbrev logged : Log → StateDb → StateDb
  logged l s = record s {
    entries = add_log_change s.thash ∷ s.entries;
    logs = update s.logs s.thash (s.logs s.thash ++ l ∷ []);
    log_size = (s.log_size + 1) % 2 ^ 64;
  }

  Same-unlogged :
      (l : Log) (s : StateDb)
      → IsSound s
      → Same b (drop_dirty (add_log_change s.thash) (without_log b s.thash (logged l s))) s
  unfolding view find_object drop_dirty
  Same-unlogged l s h = record {
    trie = λ j. refl;
    views = λ j. refl;
    refund = refl;
    logs = λ k. ground (arith, drop_last-append (s.logs s.thash) l);
    log_size = omega (arith, h.counted);
    preimages = λ k. refl;
    dirties = λ j n. refl;
  }

  Step-logged : (l : Log) (s : StateDb) → IsSound s → Step b s (logged l s)
  Step-logged l s h =
      let (x, r, e) = append_nonempty (s.logs s.thash) l in
      Step-entry (add_log_change s.thash) s (logged l s) (without_log b s.thash (logged l s)) refl
        (log_found b s.thash (logged l s) x r (update_self s.logs s.thash _ ∙ e))
        (Same-unlogged l s h) refl refl
        (record {
          placed = h.placed;
          gone = h.gone;
          counted = omega arith;
          restorable = (tt, h.restorable);
        })

  pub Step-add_log : (l : Log) (s : StateDb) → IsSound s → Step b s (Ops.add_log l s)
  unfolding Ops.add_log append
  Step-add_log l s h = Step-logged _ s h
