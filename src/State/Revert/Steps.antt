-- ===== src/State/Revert/Steps.antt =====
-- Each operation of the state is a step: it adds journal entries whose undoing shows the state
-- that it started from.
use uranus.Prelude.{
  ◌≡◌, refl, sym, ◌∙◌, false, some, List, [], ◌∷◌, ◌++◌, arith, fun_ext, ap, Result, ok, ◌>>=◌,
  bind_assoc, update_self, All, subst,
}
use mathlib.Core.List.{append_assoc}
use uranus.State.Object.{Address, Backend, StateObject, new_object}
use uranus.State.Db.{
  StateDb, Entry, Change, append, account_change, balance_change, set_state_object,
  get_state_object,
}
use uranus.State.Journal.{restore, undo, undo_all, drop_dirty}
use uranus.State.Ops.{write_change}
use uranus.State.View.{
  object_view, find_object, view, Same, Same-refl, Same-trans, IsSound, IsRestorable,
}
use uranus.State.Revert.Congruence.{
  Same-get_state_object, Same-sym, account_found, undo_all-UndoneAlike, deleted-restore,
}

-- `s'` is `s` with journal entries added that lead back to what `s` shows.
pub record Step (b : Backend) (s s' : StateDb) : Type 0 where
  pub added : List Entry
  pub journal : s'.entries ≡ added ++ s.entries
  pub undone : StateDb
  pub undoes : undo_all b added s' ≡ ok undone
  pub back : Same b undone s
  pub revisions : s'.revisions ≡ s.revisions
  pub next_revision_id : s'.next_revision_id ≡ s.next_revision_id
  pub sound : IsSound s'

module _ (b : Backend) where
  pub undo_all-append :
      (es fs : List Entry) (s : StateDb)
      → undo_all b (es ++ fs) s ≡ (undo_all b es s >>= undo_all b fs)
  unfolding undo_all
  undo_all-append [] fs s = refl
  undo_all-append (e ∷ es) fs s =
      ap (λ (k : StateDb → Result StateDb). undo b e s >>= k)
        (fun_ext λ s1. undo_all-append es fs (drop_dirty e s1))
      ∙ sym (bind_assoc (undo b e s) (λ s1. undo_all b es (drop_dirty e s1)) (undo_all b fs))

  pub Step-refl : (s : StateDb) → IsSound s → Step b s s
  unfolding undo_all
  Step-refl s h = record {
    added = [];
    journal = refl;
    undone = s;
    undoes = refl;
    back = Same-refl b s;
    revisions = refl;
    next_revision_id = refl;
    sound = h;
  }

  pub back_again :
      (fs : List Entry) (t u : StateDb) {r : StateDb}
      → Same b t u
      → undo_all b fs t ≡ ok r
      → (v : StateDb) × (undo_all b fs u ≡ ok v) × Same b r v
  back_again fs t u h e = rw e at (undo_all-UndoneAlike b fs t u h)

  pub Step-trans : {s t u : StateDb} → Step b s t → Step b t u → Step b s u
  Step-trans {s} {t} {u} p q =
      let (v, e, k) = back_again p.added t q.undone (Same-sym b q.back) p.undoes in
      record {
        added = q.added ++ p.added;
        journal = rw (q.journal, p.journal, append_assoc);
        undone = v;
        undoes = rw (undo_all-append q.added p.added u, q.undoes) e;
        back = Same-trans b (Same-sym b k) p.back;
        revisions = q.revisions ∙ p.revisions;
        next_revision_id = q.next_revision_id ∙ p.next_revision_id;
        sound = q.sound;
      }

  entries_kept : (a : Address) (s : StateDb) → s.entries ≡ (get_state_object b a s).1.entries
  unfolding get_state_object
  entries_kept a s = ground arith

  pub IsSound-get_state_object :
      (a : Address) (s : StateDb) → IsSound s → IsSound (get_state_object b a s).1
  unfolding get_state_object new_object
  IsSound-get_state_object a s h = record {
    restorable = subst (All IsRestorable) (entries_kept a s) h.restorable;
    placed = λ j o e. ground (arith, h.placed j o);
    gone = λ j o e d. ground (arith, h.gone j o);
    counted = ground arith;
  }

  pub Step-get_state_object :
      (a : Address) (s : StateDb) → IsSound s → Step b s (get_state_object b a s).1
  unfolding undo_all
  Step-get_state_object a s h = record {
    added = [];
    journal = unfold get_state_object in ground arith;
    undone = (get_state_object b a s).1;
    undoes = refl;
    back = Same-get_state_object b a s;
    revisions = unfold get_state_object in ground arith;
    next_revision_id = unfold get_state_object in ground arith;
    sound = IsSound-get_state_object a s h;
  }

  pub found_read :
      (a : Address) (s : StateDb) (o : StateObject)
      → s.state_objects a ≡ some o
      → o.deleted ≡ false
      → (find_object b a s ≡ some o) × ((get_state_object b a s).1 ≡ s)
  unfolding find_object get_state_object
  found_read a s o h d = ground arith

  IsSound-written :
      (c : Change) (o : StateObject) (s : StateDb)
      → IsSound s
      → o.deleted ≡ false
      → IsSound (write_change c o s)
  unfolding write_change append set_state_object
  IsSound-written c o s h d = record {
    restorable = (tt, h.restorable);
    placed = λ j p e. ground (arith, h.placed j p);
    gone = λ j p e f. ground (arith, h.gone j p);
    counted = h.counted;
  }

  -- The state that undoing a write leaves.
  abbrev unwritten : Change → StateObject → StateDb → StateDb
  unwritten c o s =
      drop_dirty (account_change o.address c) (set_state_object (restore c o) (write_change c o s))

  address-restore : (c : Change) (o : StateObject) → (restore c o).address ≡ o.address
  unfolding restore
  address-restore (balance_change v) o = refl
  address-restore _ o = refl

  Same-unwritten :
      (c : Change) (o p : StateObject) (s : StateDb)
      → find_object b o.address s ≡ some p
      → o.deleted ≡ false
      → object_view b (restore c o) ≡ object_view b p
      → Same b (unwritten c o s) s
  unfolding write_change append set_state_object drop_dirty view find_object
  Same-unwritten c o p s found d e = record {
    trie = λ j. refl;
    views = λ j. ground (arith, address-restore c o, deleted-restore b c o, e, found);
    refund = refl;
    logs = λ h. refl;
    log_size = refl;
    preimages = λ h. refl;
    dirties = λ j n. ground arith;
  }

  pub undo_one :
      (e : Entry) (s u : StateDb) → undo b e s ≡ ok u → undo_all b (e ∷ []) s ≡ ok (drop_dirty e u)
  unfolding undo_all
  undo_one e s u h = ap (λ (r : Result StateDb). r >>= λ s1. ok (drop_dirty e s1)) h

  written_live :
      (c : Change) (o : StateObject) (s : StateDb)
      → (write_change c o s).state_objects o.address ≡ some o
  unfolding write_change append set_state_object
  written_live c o s = update_self s.state_objects o.address (some o)

  undo-written :
      (c : Change) (o : StateObject) (s : StateDb)
      → o.deleted ≡ false
      → undo b (account_change o.address c) (write_change c o s)
        ≡ ok (set_state_object (restore c o) (write_change c o s))
  undo-written c o s d =
      let (found, read) = found_read o.address (write_change c o s) o (written_live c o s) d in
      account_found b o.address c (write_change c o s) o found
      ∙ ap (λ (t : StateDb). ok (set_state_object (restore c o) t)) read

  -- A write of a live account that journals what restores it.
  pub Step-write_change :
      (c : Change) (o p : StateObject) (s : StateDb)
      → IsSound s
      → find_object b o.address s ≡ some p
      → o.deleted ≡ false
      → object_view b (restore c o) ≡ object_view b p
      → Step b s (write_change c o s)
  Step-write_change c o p s h found d e = record {
    added = account_change o.address c ∷ [];
    journal = unfold write_change append set_state_object in refl;
    undone = unwritten c o s;
    undoes = undo_one (account_change o.address c) (write_change c o s) _ (undo-written c o s d);
    back = Same-unwritten c o p s found d e;
    revisions = unfold write_change append set_state_object in refl;
    next_revision_id = unfold write_change append set_state_object in refl;
    sound = IsSound-written c o s h d;
  }
