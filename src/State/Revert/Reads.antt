-- ===== src/State/Revert/Reads.antt =====
-- The reads that load a storage word or the code into an object are steps: they show nothing new.
use uranus.Prelude.{
  ◌≡◌, refl, ◌∙◌, some, [], false, arith, Option-cases, inl, inr, if◌then◌else◌, ◌==◌,
}
use uranus.State.Object.{Address, Hash, Backend, StateObject, new_object, get_state, get_code}
use uranus.State.Db.{StateDb, get_state_object, set_state_object}
use uranus.State.Journal.{undo_all}
use uranus.State.Getters
use uranus.State.View.{object_view, find_object, view, Same, IsSound}
use uranus.State.Revert.Views.{
  object_view-get_code, object_view-get_state, get_state_object-eq-find_object,
  view-set_state_object,
}
use uranus.State.Revert.Steps.{Step, Step-trans, Step-get_state_object}
use uranus.State.Revert.Operations.{get_state_kept, get_code_kept}

module _ (b : Backend) where
  -- An object that a read found: it is live at its address.
  record IsFound (a : Address) (s : StateDb) (o : StateObject) : Type 0 where
    live : (get_state_object b a s).1.state_objects a ≡ some o
    kept : o.deleted ≡ false
    placed : o.address ≡ a

  find_object-IsFound :
      (a : Address) (s : StateDb) (o : StateObject)
      → IsSound s
      → find_object b a s ≡ some o
      → IsFound a s o
  unfolding find_object get_state_object new_object
  find_object-IsFound a s o h e = record {
    live = ground arith;
    kept = ground arith;
    placed = ground (arith, h.placed a o);
  }

  shown :
      (a : Address) (s : StateDb) (o p : StateObject)
      → s.state_objects a ≡ some o
      → o.deleted ≡ false
      → p.address ≡ a
      → object_view b p ≡ object_view b o
      → (j : Address) → (if p.address == j then some (object_view b p) else view b s j) ≡ view b s j
  unfolding view find_object
  shown a s o p live kept placed v j = ground (arith, v)

  Same-loaded :
      (a : Address) (s : StateDb) (o p : StateObject)
      → s.state_objects a ≡ some o
      → o.deleted ≡ false
      → o.address ≡ a
      → p.address ≡ o.address
      → p.deleted ≡ o.deleted
      → object_view b p ≡ object_view b o
      → Same b (set_state_object p s) s
  Same-loaded a s o p live kept placed e d v = record {
    trie = λ j. unfold set_state_object in refl;
    views =
        λ j. view-set_state_object b p s j (d ∙ kept) ∙ shown a s o p live kept (e ∙ placed) v j;
    refund = unfold set_state_object in refl;
    logs = λ h. unfold set_state_object in refl;
    log_size = unfold set_state_object in refl;
    preimages = λ h. unfold set_state_object in refl;
    dirties = λ j n. unfold set_state_object in refl;
  }

  IsSound-loaded :
      (s : StateDb) (p : StateObject)
      → IsSound s
      → p.deleted ≡ false
      → IsSound (set_state_object p s)
  unfolding set_state_object
  IsSound-loaded s p h d = record {
    restorable = h.restorable;
    placed = λ j q e. ground (arith, h.placed j q);
    gone = λ j q e f. ground (arith, h.gone j q);
    counted = h.counted;
  }

  -- A found object that a read loads something into.
  Step-loaded :
      (a : Address) (s : StateDb) (o p : StateObject)
      → IsSound s
      → find_object b a s ≡ some o
      → p.address ≡ o.address
      → p.deleted ≡ o.deleted
      → object_view b p ≡ object_view b o
      → Step b s (set_state_object p (get_state_object b a s).1)
  Step-loaded a s o p h found e d v =
      let f = find_object-IsFound a s o h found in
      let read = Step-get_state_object b a s h in
      let s1 = (get_state_object b a s).1 in
      Step-trans b read (record {
        added = [];
        journal = unfold set_state_object in refl;
        undone = set_state_object p s1;
        undoes = unfold undo_all in refl;
        back = Same-loaded a s1 o p f.live f.kept f.placed e d v;
        revisions = unfold set_state_object in refl;
        next_revision_id = unfold set_state_object in refl;
        sound = IsSound-loaded s1 p read.sound (d ∙ f.kept);
      })

  pub Step-get_storage :
      (a : Address) (k : Hash) (s : StateDb) → IsSound s → Step b s (Getters.get_storage b a k s).1
  unfolding Getters.get_storage
  Step-get_storage a k s h = elim (Option-cases (find_object b a s)) [
    | inl missing ↦
        rw (Getters.get_storage, get_state_object-eq-find_object b a s, missing)
          (Step-get_state_object b a s h)
    | inr (o, found) ↦
        let kept = get_state_kept b k o in
        rw (Getters.get_storage, get_state_object-eq-find_object b a s, found)
          (Step-loaded a s o (get_state b k o).1 h found kept.0 kept.1
            (object_view-get_state b k o))
  ]

  pub Step-get_contract_code :
      (a : Address) (s : StateDb) → IsSound s → Step b s (Getters.get_contract_code b a s).1
  unfolding Getters.get_contract_code
  Step-get_contract_code a s h = elim (Option-cases (find_object b a s)) [
    | inl missing ↦
        rw (Getters.get_contract_code, get_state_object-eq-find_object b a s, missing)
          (Step-get_state_object b a s h)
    | inr (o, found) ↦
        let kept = get_code_kept b o in
        rw (Getters.get_contract_code, get_state_object-eq-find_object b a s, found)
          (Step-loaded a s o (get_code b o).1 h found kept.0 kept.1 (object_view-get_code b o))
  ]
