-- ===== src/State/Revert/Creation.antt =====
-- Making an account live, and creating it, are steps.
use uranus.Prelude.{
  ◌≡◌, refl, sym, ◌∙◌, false, Option, none, some, [], ◌∷◌, update, arith, Option-cases, inl, inr,
  ok, All,
}
use uranus.State.Object.{Address, Backend, StateObject, new_object, empty_account}
use uranus.State.Db.{
  StateDb, Entry, append, create_object_change, reset_object_change, set_state_object,
  get_state_object, create_object, creation, get_or_new_state_object,
}
use uranus.State.Journal.{undo, undo_all, drop_dirty}
use uranus.State.View.{object_view, find_object, view, Same, IsSound, IsRestorable}
use uranus.State.Revert.Views.{get_state_object-eq-find_object, view-set_state_object}
use uranus.State.Revert.Steps.{
  Step, Step-trans, undo_one, Step-get_state_object, IsSound-get_state_object,
}
use uranus.State.Revert.Congruence.{find_object-deleted}

module _ (b : Backend) where
  abbrev uncreated : Address → StateDb → StateDb
  uncreated a s = record s {
    state_objects = update s.state_objects a none;
    state_objects_dirty = update s.state_objects_dirty a false;
  }

  undo-create : (a : Address) (s : StateDb) → undo b (create_object_change a) s ≡ ok (uncreated a s)
  unfolding undo
  undo-create a s = refl

  undo_reset :
      (p : StateObject) (s : StateDb)
      → undo_all b (reset_object_change p ∷ []) s ≡ ok (set_state_object p s)
  unfolding undo_all
  undo_reset p s = refl

  -- `createObject` on an address whose account is or is not there.
  Same-uncreated :
      (a : Address) (o : StateObject) (s : StateDb)
      → IsSound s
      → o.address ≡ a
      → find_object b a s ≡ none
      → Same b
          (drop_dirty
            (create_object_change a)
            (uncreated a (set_state_object o (append (create_object_change a) s))))
          s
  unfolding append set_state_object drop_dirty view find_object
  Same-uncreated a o s h e m = record {
    trie = λ j. refl;
    views = λ j. elim (Option-cases (s.state_objects a)) [
      | inl n ↦ ground arith
      | inr (q, n) ↦ ground (arith, h.gone a q n)
    ];
    refund = refl;
    logs = λ h. refl;
    log_size = refl;
    preimages = λ h. refl;
    dirties = λ j n. ground arith;
  }

  pub view_found :
      (a : Address) (s : StateDb) (o : StateObject)
      → find_object b a s ≡ some o
      → view b s a ≡ some (object_view b o)
  unfolding view
  view_found a s o m = rw (m, view)

  pub view-append : (e : Entry) (s : StateDb) (j : Address) → view b (append e s) j ≡ view b s j
  unfolding view find_object append
  view-append e s j = ground arith

  pub view-drop_dirty :
      (e : Entry) (s : StateDb) (j : Address) → view b (drop_dirty e s) j ≡ view b s j
  unfolding view find_object drop_dirty
  view-drop_dirty e s j = ground arith

  Same-unreset :
      (a : Address) (o p : StateObject) (s : StateDb)
      → o.address ≡ a
      → p.address ≡ a
      → o.deleted ≡ false
      → find_object b a s ≡ some p
      → Same b (set_state_object p (set_state_object o (append (reset_object_change p) s))) s
  unfolding append set_state_object
  Same-unreset a o p s e q d m = record {
    trie = λ j. refl;
    views = λ j. ground (
      arith,
      view-set_state_object b p (set_state_object o (append (reset_object_change p) s)) j
          (find_object-deleted b a s p m),
      view-set_state_object b o (append (reset_object_change p) s) j d,
      view-append (reset_object_change p) s j,
      view_found a s p m,
    );
    refund = refl;
    logs = λ h. refl;
    log_size = refl;
    preimages = λ h. refl;
    dirties = λ j n. refl;
  }

  pub address-find_object :
      (a : Address) (s : StateDb) (o : StateObject)
      → IsSound s
      → find_object b a s ≡ some o
      → o.address ≡ a
  unfolding find_object new_object
  address-find_object a s o h m = ground (arith, h.placed a o)

  entries_appended : (e : Entry) (s : StateDb) → (append e s).entries ≡ e ∷ s.entries
  unfolding append
  entries_appended e s = ground arith

  appended :
      (e : Entry) (s : StateDb)
      → IsRestorable e
      → All IsRestorable s.entries
      → All IsRestorable (append e s).entries
  appended e s k h = rw (entries_appended e s) (k, h)

  pub IsSound-set_state_object :
      (o : StateObject) (e : Entry) (s : StateDb)
      → IsSound s
      → IsRestorable e
      → o.deleted ≡ false
      → IsSound (set_state_object o (append e s))
  unfolding append set_state_object
  IsSound-set_state_object o e s h k d = record {
    restorable = appended e s k h.restorable;
    placed = λ j p m. ground (arith, h.placed j p);
    gone = λ j p m f. ground (arith, h.gone j p);
    counted = ground (arith, h.counted);
  }

  Step-create_missing :
      (a : Address) (o : StateObject) (s : StateDb)
      → IsSound s
      → o.address ≡ a
      → o.deleted ≡ false
      → find_object b a s ≡ none
      → Step b s (set_state_object o (append (create_object_change a) s))
  unfolding append set_state_object
  Step-create_missing a o s h e d m = record {
    added = create_object_change a ∷ [];
    journal = refl;
    undone =
        drop_dirty (create_object_change a)
          (uncreated a (set_state_object o (append (create_object_change a) s)));
    undoes = undo_one b (create_object_change a) _ _ (undo-create a _);
    back = Same-uncreated a o s h e m;
    revisions = refl;
    next_revision_id = refl;
    sound = IsSound-set_state_object o (create_object_change a) s h tt d;
  }

  Step-create_existing :
      (a : Address) (o p : StateObject) (s : StateDb)
      → IsSound s
      → o.address ≡ a
      → o.deleted ≡ false
      → find_object b a s ≡ some p
      → Step b s (set_state_object o (append (reset_object_change p) s))
  unfolding append set_state_object
  Step-create_existing a o p s h e d m = record {
    added = reset_object_change p ∷ [];
    journal = refl;
    undone = set_state_object p (set_state_object o (append (reset_object_change p) s));
    undoes = undo_reset p (set_state_object o (append (reset_object_change p) s));
    back = Same-unreset a o p s e (address-find_object a s p h m) d m;
    revisions = refl;
    next_revision_id = refl;
    sound =
        IsSound-set_state_object o (reset_object_change p) s h (find_object-deleted b a s p m) d;
  }

  pub find_object-get_state_object :
      (a : Address) (s : StateDb) → find_object b a (get_state_object b a s).1 ≡ find_object b a s
  unfolding find_object get_state_object new_object
  find_object-get_state_object a s = ground arith

  find_object-set_state_object :
      (o : StateObject) (s : StateDb)
      → o.deleted ≡ false
      → find_object b o.address (set_state_object o s) ≡ some o
  unfolding find_object set_state_object
  find_object-set_state_object o s d = ground arith

  Step-created :
      (a : Address) (o : StateObject) (prev : Option StateObject) (s : StateDb)
      → IsSound s
      → o.address ≡ a
      → o.deleted ≡ false
      → find_object b a s ≡ prev
      → Step b s (set_state_object o (append (creation a prev) s))
  unfolding creation
  Step-created a o none s h e d m = Step-create_missing a o s h e d m
  Step-created a o (some p) s h e d m = Step-create_existing a o p s h e d m

  -- `createObject` with the object that it stores, and that object with other fields.
  pub Step-stored :
      (a : Address) (o : StateObject) (s : StateDb)
      → IsSound s
      → o.address ≡ a
      → o.deleted ≡ false
      → Step b s (
          set_state_object o
            (append (creation a (get_state_object b a s).0) (get_state_object b a s).1))
  Step-stored a o s h e d = Step-trans b (Step-get_state_object b a s h) (
      Step-created a o (get_state_object b a s).0 (get_state_object b a s).1
        (IsSound-get_state_object b a s h) e d
        (find_object-get_state_object a s ∙ sym (get_state_object-eq-find_object b a s)))

  pub Step-create_object :
      (a : Address) (s : StateDb) → IsSound s → Step b s (create_object b a s).2
  unfolding create_object new_object
  Step-create_object a s h = Step-stored a (new_object b a empty_account) s h refl refl

  -- What a caller of `GetOrNewStateObject` may use: a step to a state in which the object is live.
  pub record Obtained (a : Address) (s : StateDb) (r : StateObject × StateDb) : Type 0 where
    pub step : Step b s r.1
    pub live : find_object b a r.1 ≡ some r.0
    pub placed : r.0.address ≡ a
    pub kept : r.0.deleted ≡ false

  Obtained-old :
      (a : Address) (s : StateDb) (o : StateObject)
      → IsSound s
      → find_object b a s ≡ some o
      → Obtained a s (o, (get_state_object b a s).1)
  Obtained-old a s o h m = record {
    step = Step-get_state_object b a s h;
    live = find_object-get_state_object a s ∙ m;
    placed = address-find_object a s o h m;
    kept = find_object-deleted b a s o m;
  }

  Obtained-new :
      (a : Address) (s : StateDb)
      → IsSound s
      → Obtained a s (
        (create_object b a (get_state_object b a s).1).0,
        (create_object b a (get_state_object b a s).1).2,
      )
  unfolding create_object new_object
  Obtained-new a s h = record {
    step =
        Step-trans b (Step-get_state_object b a s h)
          (Step-create_object a (get_state_object b a s).1 (IsSound-get_state_object b a s h));
    live = find_object-set_state_object (new_object b a empty_account) _ refl;
    placed = refl;
    kept = refl;
  }

  pub get_or_new_state_object-Obtained :
      (a : Address) (s : StateDb) → IsSound s → Obtained a s (get_or_new_state_object b a s)
  unfolding get_or_new_state_object
  get_or_new_state_object-Obtained a s h = elim (Option-cases (find_object b a s)) [
    | inl m ↦
        rw (get_state_object-eq-find_object b a s, m, get_or_new_state_object) (Obtained-new a s h)
    | inr (o, m) ↦
        rw (get_state_object-eq-find_object b a s, m, get_or_new_state_object)
          (Obtained-old a s o h m)
  ]
