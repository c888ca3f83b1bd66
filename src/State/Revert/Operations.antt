-- ===== src/State/Revert/Operations.antt =====
-- The operations of the state that write one account are steps.
use uranus.Prelude.{
  ℕ, ◌≡◌, refl, sym, ◌∙◌, subst, Option, none, some, arith, Option-cases, Bool-cases, ap, inl, inr,
  ok, update-update_restore,
}
use uranus.Prelude.Int.{ℤ, is_zero}
use uranus.State.Object.{
  Address, Hash, Bytes, Backend, StateObject, get_state, get_code, set_state, set_code,
}
use uranus.State.Db.{
  StateDb, Change, balance_change, nonce_change, storage_change, code_change, locked_balance_change,
  unlocked_balance_change, delegate_timestamp_change, get_or_new_state_object,
}
use uranus.State.Journal.{restore}
use uranus.State.Ops
use uranus.State.Ops.{
  write_change, object_set_balance, object_add_balance, object_sub_balance, touch,
}
use uranus.State.View.{AccountView, object_view, find_object, read_code, IsSound}
use uranus.State.Revert.Views.{
  restore_view, object_view-restore, object_view-get_code, object_view-get_state,
  get_state-read_storage, get_code-read_code,
}
use uranus.State.Revert.Steps.{Step, Step-trans, Step-write_change}
use uranus.State.Revert.Creation.{Obtained, get_or_new_state_object-Obtained}

module _ (b : Backend) where
  -- A write of the object that a caller obtained.
  Step-change :
      (c : Change) (o : StateObject) {a : Address} {s : StateDb} {r : StateObject × StateDb}
      → Obtained b a s r
      → o.address ≡ r.0.address
      → o.deleted ≡ r.0.deleted
      → object_view b (restore c o) ≡ object_view b r.0
      → Step b s (write_change c o r.1)
  Step-change c o {a} {s} {r} h e d v = Step-trans b h.step (
      Step-write_change b c o r.0 r.1 h.step.sound
        (ap (λ (j : Address). find_object b j r.1) (e ∙ h.placed) ∙ h.live) (d ∙ h.kept) v)

  balance_restored :
      (o : StateObject) (v : ℤ)
      → object_view b (restore (balance_change o.balance) (record o { balance = v }))
        ≡ object_view b o
  unfolding object_view restore
  balance_restored o v = refl

  pub Step-balance :
      (v : ℤ) {a : Address} {s : StateDb} {r : StateObject × StateDb}
      → Obtained b a s r
      → Step b s (object_set_balance v r.0 r.1)
  unfolding object_set_balance
  Step-balance v {r = r} h =
      Step-change (balance_change r.0.balance) (record r.0 { balance = v }) h refl refl
        (balance_restored r.0 v)

  pub Step-set_balance :
      (a : Address) (v : ℤ) (s : StateDb) → IsSound s → Step b s (Ops.set_balance b a v s)
  unfolding Ops.set_balance
  Step-set_balance a v s h = Step-balance v (get_or_new_state_object-Obtained b a s h)

  pub Step-sub_balance :
      (a : Address) (v : ℤ) (s : StateDb) → IsSound s → Step b s (Ops.sub_balance b a v s)
  unfolding Ops.sub_balance object_sub_balance
  Step-sub_balance a v s h =
      let got = get_or_new_state_object-Obtained b a s h in
      elim (Bool-cases (is_zero v)) [
        | inl z ↦ rw (z) got.step
        | inr n ↦ rw (n) (Step-balance _ got)
      ]

  nonce_restored :
      (o : StateObject) (n : ℕ)
      → object_view b (restore (nonce_change o.nonce) (record o { nonce = n })) ≡ object_view b o
  unfolding object_view restore
  nonce_restored o n = refl

  pub Step-set_nonce :
      (a : Address) (n : ℕ) (s : StateDb) → IsSound s → Step b s (Ops.set_nonce b a n s)
  unfolding Ops.set_nonce
  Step-set_nonce a n s h =
      Step-change _ _ (get_or_new_state_object-Obtained b a s h) refl refl (nonce_restored _ n)

  locked_restored :
      (o : StateObject) (v : ℤ)
      → object_view b
          (restore (locked_balance_change o.locked_balance) (record o { locked_balance = v }))
        ≡ object_view b o
  unfolding object_view restore
  locked_restored o v = refl

  pub Step-set_locked_balance :
      (a : Address) (v : ℤ) (s : StateDb) → IsSound s → Step b s (Ops.set_locked_balance b a v s)
  unfolding Ops.set_locked_balance
  Step-set_locked_balance a v s h =
      Step-change _ _ (get_or_new_state_object-Obtained b a s h) refl refl (locked_restored _ v)

  delegate_restored :
      (o : StateObject) (v : ℤ)
      → object_view b (
          restore
            (delegate_timestamp_change o.delegate_timestamp)
            (record o { delegate_timestamp = v }))
        ≡ object_view b o
  unfolding object_view restore
  delegate_restored o v = refl

  pub Step-set_delegate_timestamp :
      (a : Address) (v : ℤ) (s : StateDb)
      → IsSound s
      → Step b s (Ops.set_delegate_timestamp b a v s)
  unfolding Ops.set_delegate_timestamp
  Step-set_delegate_timestamp a v s h =
      Step-change _ _ (get_or_new_state_object-Obtained b a s h) refl refl (delegate_restored _ v)

  unlocked_restored :
      (o : StateObject) (v w : ℤ)
      → o.unlocked_balance ≡ some w
      → object_view b (restore (unlocked_balance_change w) (record o { unlocked_balance = some v }))
        ≡ object_view b o
  unfolding object_view restore
  unlocked_restored o v w e =
      ap (λ (u : Option ℤ). object_view b (record o { unlocked_balance = u })) (sym e)

  pub Step-set_unlocked_balance :
      (a : Address) (v : ℤ) (s s' : StateDb)
      → IsSound s
      → Ops.set_unlocked_balance b a v s ≡ ok s'
      → Step b s s'
  unfolding Ops.set_unlocked_balance
  Step-set_unlocked_balance a v s s' h e =
      let r = get_or_new_state_object b a s in
      elim (Option-cases r.0.unlocked_balance) [
        | inl n ↦ absurd (ground arith)
        | inr (w, n) ↦ subst (Step b s) (ground arith) (
            Step-change (unlocked_balance_change w) (record r.0 { unlocked_balance = some v })
              (get_or_new_state_object-Obtained b a s h) refl refl (unlocked_restored r.0 v w n))
      ]

  storage_view_restored :
      (w : AccountView) (k v x : Hash)
      → w.storage k ≡ x
      → restore_view b (storage_change k x) (restore_view b (storage_change k v) w) ≡ w
  storage_view_restored w k v x h =
      ap (λ (f : Hash → Hash). record w { storage = f }) (update-update_restore w.storage k v x h)

  storage_restored :
      (o : StateObject) (k v : Hash)
      → object_view b
          (restore (storage_change k (get_state b k o).0) (set_state k v (get_state b k o).1))
        ≡ object_view b o
  unfolding restore object_view
  storage_restored o k v =
      let x = (get_state b k o).0 in
      let o1 = (get_state b k o).1 in
      object_view-restore b (storage_change k x) (set_state k v o1)
      ∙ (ap (restore_view b (storage_change k x)) (object_view-restore b (storage_change k v) o1)
          ∙ (ap
                (λ (w : AccountView).
                  restore_view b (storage_change k x) (restore_view b (storage_change k v) w))
                (object_view-get_state b k o)
              ∙ storage_view_restored (object_view b o) k v x (sym (get_state-read_storage b k o))))

  code_view_restored :
      (w : AccountView) (p c : Option Bytes) (h x : Hash)
      → h ≡ w.code_hash
      → read_code b w.code_hash p ≡ w.code
      → restore_view b (code_change p h) (restore_view b (code_change c x) w) ≡ w
  code_view_restored w p c h x e f = rw e (ap (λ (u : Option Bytes). record w { code = u }) f)

  read_code_twice :
      (h : Hash) (c : Option Bytes) → read_code b h (read_code b h c) ≡ read_code b h c
  read_code_twice h none = ground arith
  read_code_twice h (some c) = refl

  code_restored :
      (o : StateObject) (c : Option Bytes) (x : Hash)
      → object_view b (
          restore
            (code_change (get_code b o).0 (get_code b o).1.code_hash)
            (set_code x c (get_code b o).1))
        ≡ object_view b o
  unfolding restore object_view
  code_restored o c x =
      let p = (get_code b o).0 in
      let o1 = (get_code b o).1 in
      object_view-restore b (code_change p o1.code_hash) (set_code x c o1)
      ∙ (ap (restore_view b (code_change p o1.code_hash))
            (object_view-restore b (code_change c x) o1)
          ∙ (ap
                (λ (w : AccountView).
                  restore_view b (code_change p o1.code_hash) (restore_view b (code_change c x) w))
                (object_view-get_code b o)
              ∙ code_view_restored (object_view b o) p c o1.code_hash x
                  (ap (λ (w : AccountView). w.code_hash) (object_view-get_code b o))
                  (rw (get_code-read_code b o) (read_code_twice o.code_hash o.code))))

  pub get_state_kept :
      (k : Hash) (o : StateObject)
      → ((get_state b k o).1.address ≡ o.address) × ((get_state b k o).1.deleted ≡ o.deleted)
  unfolding get_state
  get_state_kept k o = ground arith

  pub get_code_kept :
      (o : StateObject)
      → ((get_code b o).1.address ≡ o.address) × ((get_code b o).1.deleted ≡ o.deleted)
  unfolding get_code
  get_code_kept o = ground arith

  pub Step-set_storage :
      (a : Address) (k v : Hash) (s : StateDb) → IsSound s → Step b s (Ops.set_storage b a k v s)
  unfolding Ops.set_storage set_state
  Step-set_storage a k v s h =
      let r = get_or_new_state_object b a s in
      Step-change (storage_change k (get_state b k r.0).0) (set_state k v (get_state b k r.0).1)
        (get_or_new_state_object-Obtained b a s h) (get_state_kept k r.0).0 (get_state_kept k r.0).1
        (storage_restored r.0 k v)

  pub Step-set_contract_code :
      (a : Address) (c : Bytes) (s : StateDb) → IsSound s → Step b s (Ops.set_contract_code b a c s)
  unfolding Ops.set_contract_code set_code
  Step-set_contract_code a c s h =
      let r = get_or_new_state_object b a s in
      Step-change (code_change (get_code b r.0).0 (get_code b r.0).1.code_hash)
        (set_code (b.code_hash_of c) (some c) (get_code b r.0).1)
        (get_or_new_state_object-Obtained b a s h) (get_code_kept r.0).0 (get_code_kept r.0).1
        (code_restored r.0 (some c) (b.code_hash_of c))
