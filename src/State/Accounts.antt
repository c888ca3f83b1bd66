-- ===== src/State/Accounts.antt =====
-- The fields of accounts that operations of the state leave: balances and nonces.
use uranus.Prelude.{
  ℕ, ◌≡◌, refl, sym, ap, ◌∙◌, false, Option, none, some, ◌==◌, if◌then◌else◌, arith, Bool-cases,
  Option-cases, inl, inr,
}
use uranus.Prelude.Int.{ℤ, pos, ◌+ℤ◌, ◌-ℤ◌, is_zero, +ℤ_zero, -ℤ_zero}
use uranus.State.Object.{Address, Backend, StateObject, new_object, empty_account, is_empty}
use uranus.State.Db.{
  StateDb, Change, nonce_change, balance_change, account_change, append, get_state_object,
  set_state_object, get_or_new_state_object, create_object, creation,
}
use uranus.State.Ops
use uranus.State.Ops.{
  write_change, touch, object_set_balance, object_add_balance, object_sub_balance,
}
use uranus.State.Getters
use uranus.State.View.{AccountView, object_view, find_object, view, Same, IsSound}
use uranus.State.Revert.Accounts.{
  get_or_new_state_object-Obtained, view_found, view-append, view-set_state_object,
  view-get_state_object, get_state_object-eq-find_object, Same-get_state_object,
  Step-get_state_object,
}

module _ (b : Backend) where
  -- A field of an account, with its value where there is no account.
  abbrev pub field_of {ℓ} : {A : Type ℓ} → (AccountView → A) → A → Option AccountView → A
  field_of f d none = d
  field_of f d (some w) = f w

  abbrev pub balance_of : StateDb → Address → ℤ
  balance_of s a = field_of (λ w. w.balance) (pos 0) (view b s a)

  abbrev pub nonce_of : StateDb → Address → ℕ
  nonce_of s a = field_of (λ w. w.nonce) 0 (view b s a)

  -- GetBalance and GetNonce read them and show nothing new.
  pub get_balance-balance_of :
      (a : Address) (s : StateDb) → (Getters.get_balance b a s).0 ≡ balance_of s a
  unfolding Getters.get_balance view object_view
  get_balance-balance_of a s = ground (arith, get_state_object-eq-find_object b a s)

  pub get_nonce-nonce_of : (a : Address) (s : StateDb) → (Getters.get_nonce b a s).0 ≡ nonce_of s a
  unfolding Getters.get_nonce view object_view
  get_nonce-nonce_of a s = ground (arith, get_state_object-eq-find_object b a s)

  abbrev fresh : Address → StateObject
  fresh a = new_object b a empty_account

  view-fresh :
      (a : Address) (prev : Option StateObject) (s : StateDb) (j : Address)
      → view b (set_state_object (fresh a) (append (creation a prev) s)) j
        ≡ (if a == j then some (object_view b (fresh a)) else view b s j)
  unfolding new_object
  view-fresh a prev s j = ground (
    arith,
    view-set_state_object b (fresh a) (append (creation a prev) s) j refl,
    view-append b (creation a prev) s j,
  )

  view-create_object :
      (a : Address) (s : StateDb) (j : Address)
      → view b (create_object b a s).2 j
        ≡ (if a == j then some (object_view b (fresh a)) else view b s j)
  unfolding create_object
  view-create_object a s j = ground (
    arith,
    view-fresh a (get_state_object b a s).0 (get_state_object b a s).1 j,
    view-get_state_object b a s j,
  )

  -- What GetOrNewStateObject returns: the account's object, or a fresh one.
  view_obtained :
      (a : Address) (s : StateDb) (j : Address)
      → view b (get_or_new_state_object b a s).1 j ≡ (elim (find_object b a s) [
        | some o ↦ view b s j
        | none ↦ if a == j then some (object_view b (fresh a)) else view b s j
      ])
  unfolding get_or_new_state_object
  view_obtained a s j = elim (Option-cases (find_object b a s)) [
    | inl n ↦
        rw (get_state_object-eq-find_object b a s, n, get_or_new_state_object)
          (ground (
            arith,
            view-create_object a (get_state_object b a s).1 j,
            view-get_state_object b a s j,
          ))
    | inr (o, n) ↦
        rw (get_state_object-eq-find_object b a s, n, get_or_new_state_object)
          (view-get_state_object b a s j)
  ]

  view_of_missing : (a : Address) (s : StateDb) → find_object b a s ≡ none → view b s a ≡ none
  unfolding view
  view_of_missing a s n = rw (n, view)

  module _ {A : Type 0} (f : AccountView → A) (d : A) where
    abbrev field : StateDb → Address → A
    field s a = field_of f d (view b s a)

    -- A fresh account reads as a missing one.
    field_obtained :
        (a : Address) (s : StateDb)
        → f (object_view b (fresh a)) ≡ d
        → (j : Address) → field (get_or_new_state_object b a s).1 j ≡ field s j
    field_obtained a s e j = elim (Option-cases (find_object b a s)) [
      | inl n ↦ ground (arith, view_obtained a s j, n, view_of_missing a s n)
      | inr (o, n) ↦ ground (arith, view_obtained a s j, n)
    ]

    field_object :
        (a : Address) (s : StateDb)
        → f (object_view b (fresh a)) ≡ d
        → IsSound s
        → f (object_view b (get_or_new_state_object b a s).0) ≡ field s a
    field_object a s e h =
        ap (field_of f d) (
          sym (
            view_found b a (get_or_new_state_object b a s).1 (get_or_new_state_object b a s).0
              (get_or_new_state_object-Obtained b a s h).live))
        ∙ field_obtained a s e a

    field_written :
        (c : Change) (o : StateObject) (s : StateDb) (j : Address)
        → o.deleted ≡ false
        → field (write_change c o s) j ≡ (if o.address == j then f (object_view b o) else field s j)
    unfolding write_change
    field_written c o s j d = ground (
      arith,
      view-set_state_object b o (append (account_change o.address c) s) j d,
      view-append b (account_change o.address c) s j,
    )

  fresh_fields :
      (a : Address)
      → ((object_view b (fresh a)).balance ≡ pos 0) × ((object_view b (fresh a)).nonce ≡ 0)
  unfolding object_view new_object
  fresh_fields a = (refl, refl)

  abbrev priced : StateObject → ℤ → StateObject
  priced o v = record o { balance = v }

  balance_priced : (o : StateObject) (v : ℤ) → (object_view b (priced o v)).balance ≡ v
  unfolding object_view
  balance_priced o v = refl

  -- A write of a balance, as `SetBalance` of an object makes it.
  balance_written :
      (a : Address) (v : ℤ) (s : StateDb) (j : Address)
      → IsSound s
      → balance_of
          (object_set_balance v (get_or_new_state_object b a s).0 (get_or_new_state_object b a s).1)
          j
        ≡ (if a == j then v else balance_of s j)
  unfolding object_set_balance
  balance_written a v s j h =
      let r = get_or_new_state_object b a s in
      let got = get_or_new_state_object-Obtained b a s h in
      ground (
        arith,
        field_written (λ w. w.balance) (pos 0) (balance_change r.0.balance) (priced r.0 v) r.1 j
            got.kept,
        field_obtained (λ w. w.balance) (pos 0) a s (fresh_fields a).0 j,
        balance_priced r.0 v,
        got.placed,
      )

  balance_obtained :
      (a : Address) (s : StateDb)
      → IsSound s
      → (get_or_new_state_object b a s).0.balance ≡ balance_of s a
  unfolding object_view
  balance_obtained a s h = field_object (λ w. w.balance) (pos 0) a s (fresh_fields a).0 h

  balance_touched :
      (o : StateObject) (s : StateDb) (j : Address) → balance_of (touch o s) j ≡ balance_of s j
  unfolding touch view find_object append
  balance_touched o s j = ground arith

  -- AddBalance adds to the one balance, also on an account that it creates.
  pub balance_of-add_balance :
      (a : Address) (v : ℤ) (s : StateDb) (j : Address)
      → IsSound s
      → balance_of (Ops.add_balance b a v s) j
        ≡ (if a == j then balance_of s j +ℤ v else balance_of s j)
  unfolding Ops.add_balance object_add_balance
  balance_of-add_balance a v s j h =
      let r = get_or_new_state_object b a s in
      let same = field_obtained (λ w. w.balance) (pos 0) a s (fresh_fields a).0 j in
      elim (Bool-cases (is_zero v)) [
        | inl z ↦ elim (Bool-cases (is_empty b r.0)) [
          | inl y ↦
              rw (z, y)
                (balance_touched r.0 r.1 j ∙ (same ∙ ground (arith, +ℤ_zero (balance_of s j) v z)))
          | inr n ↦ rw (z, n) (same ∙ ground (arith, +ℤ_zero (balance_of s j) v z))
        ]
        | inr n ↦
            rw n
              (balance_written a (r.0.balance +ℤ v) s j h ∙ ground (arith, balance_obtained a s h))
      ]

  pub balance_of-sub_balance :
      (a : Address) (v : ℤ) (s : StateDb) (j : Address)
      → IsSound s
      → balance_of (Ops.sub_balance b a v s) j
        ≡ (if a == j then balance_of s j -ℤ v else balance_of s j)
  unfolding Ops.sub_balance object_sub_balance
  balance_of-sub_balance a v s j h =
      let r = get_or_new_state_object b a s in
      let same = field_obtained (λ w. w.balance) (pos 0) a s (fresh_fields a).0 j in
      elim (Bool-cases (is_zero v)) [
        | inl z ↦ rw z (same ∙ ground (arith, -ℤ_zero (balance_of s j) v z))
        | inr n ↦
            rw n
              (balance_written a (r.0.balance -ℤ v) s j h ∙ ground (arith, balance_obtained a s h))
      ]

  numbered :
      (o : StateObject) (n : ℕ)
      → ((object_view b (record o { nonce = n })).balance ≡ o.balance)
        × ((object_view b (record o { nonce = n })).nonce ≡ n)
  unfolding object_view
  numbered o n = (refl, refl)

  -- SetNonce moves no balance and sets the one nonce.
  pub balance_of-set_nonce :
      (a : Address) (n : ℕ) (s : StateDb) (j : Address)
      → IsSound s
      → balance_of (Ops.set_nonce b a n s) j ≡ balance_of s j
  unfolding Ops.set_nonce
  balance_of-set_nonce a n s j h =
      let r = get_or_new_state_object b a s in
      let got = get_or_new_state_object-Obtained b a s h in
      ground (
        arith,
        field_written (λ w. w.balance) (pos 0) (nonce_change r.0.nonce) (record r.0 { nonce = n })
            r.1 j got.kept,
        field_obtained (λ w. w.balance) (pos 0) a s (fresh_fields a).0 j,
        balance_obtained a s h,
        (numbered r.0 n).0,
        got.placed,
      )

  pub nonce_of-set_nonce :
      (a : Address) (n : ℕ) (s : StateDb) (j : Address)
      → IsSound s
      → nonce_of (Ops.set_nonce b a n s) j ≡ (if a == j then n else nonce_of s j)
  unfolding Ops.set_nonce
  nonce_of-set_nonce a n s j h =
      let r = get_or_new_state_object b a s in
      let got = get_or_new_state_object-Obtained b a s h in
      ground (
        arith,
        field_written (λ w. w.nonce) 0 (nonce_change r.0.nonce) (record r.0 { nonce = n }) r.1 j
            got.kept,
        field_obtained (λ w. w.nonce) 0 a s (fresh_fields a).1 j,
        (numbered r.0 n).1,
        got.placed,
      )

  pub balance_of-Same : (s t : StateDb) (j : Address) → Same b s t → balance_of s j ≡ balance_of t j
  balance_of-Same s t j h = ap (field_of (λ w. w.balance) (pos 0)) (h.views j)

  pub Same-get_balance : (a : Address) (s : StateDb) → Same b (Getters.get_balance b a s).1 s
  unfolding Getters.get_balance
  Same-get_balance a s = Same-get_state_object b a s

  pub Same-get_nonce : (a : Address) (s : StateDb) → Same b (Getters.get_nonce b a s).1 s
  unfolding Getters.get_nonce
  Same-get_nonce a s = Same-get_state_object b a s

  pub IsSound-get_balance :
      (a : Address) (s : StateDb) → IsSound s → IsSound (Getters.get_balance b a s).1
  unfolding Getters.get_balance
  IsSound-get_balance a s h = (Step-get_state_object b a s h).sound

  pub IsSound-get_nonce :
      (a : Address) (s : StateDb) → IsSound s → IsSound (Getters.get_nonce b a s).1
  unfolding Getters.get_nonce
  IsSound-get_nonce a s h = (Step-get_state_object b a s h).sound
