-- ===== src/State/Finalise/Written.antt =====
-- What Finalise writes to the account trie.
use uranus.Prelude.{
  ◌≡◌, Bool, true, false, Option, none, some, List, [], ◌∷◌, if◌then◌else◌, update, ok, ◌==◌, elem,
  refl, arith, ap, sym, ◌∙◌, Bool-cases, Option-cases, inl, inr, ==_iff,
}
use uranus.State.Object.{Address, Backend, Account, StateObject}
use uranus.State.Db.{StateDb, set_state_object}
use uranus.State.Finalise.{
  account_of, has_negative, update_state_object, delete_state_object, update_trie, update_root,
  is_condemned, finalise_object, finalise_objects,
}

-- The objects stand at their addresses and can be encoded.
pub record IsEncodable (s : StateDb) : Type 0 where
  pub placed : (a : Address) (o : StateObject) → s.state_objects a ≡ some o → o.address ≡ a
  pub signs : (a : Address) (o : StateObject) → s.state_objects a ≡ some o → has_negative o ≡ false

-- No address twice.
abbrev pub IsOnce : List Address → Type 0
IsOnce [] = Unit
IsOnce (a ∷ order) = (elem a order ≡ false) × IsOnce order

module _ (b : Backend) (delete_empty : Bool) where
  -- What becomes of a dirty address in the trie.
  unfoldable pub written : StateDb → Address → Option Account
  written s a = elim (s.state_objects a) [
    | none ↦ s.trie a
    | some o ↦ if is_condemned b delete_empty o then none else some (account_of (update_root b o))
  ]

  record Stepped (a : Address) (s s1 : StateDb) : Type 0 where
    trie : (j : Address) → s1.trie j ≡ (if a == j then written s a else s.trie j)
    others : (j : Address) → (a == j) ≡ false → s1.state_objects j ≡ s.state_objects j
    encodable : IsEncodable s1

  updated_root_kept :
      (o : StateObject)
      → ((update_root b o).address ≡ o.address) × (has_negative (update_root b o) ≡ has_negative o)
  unfolding update_root update_trie
  updated_root_kept o = (refl, refl)

  found :
      (o1 : StateObject) (s : StateDb) (j : Address)
      → (o1.address == j) ≡ true
      → update s.state_objects o1.address (some o1) j ≡ some o1
  found o1 s j i = ground (arith, i)

  -- A state where an object is put at its address.
  replaced :
      (o1 : StateObject) (s : StateDb)
      → IsEncodable s
      → has_negative o1 ≡ false
      → (s1 : StateDb) → s1.state_objects ≡ update s.state_objects o1.address (some o1)
      → IsEncodable s1
  replaced o1 s h n s1 m =
      let same : (j : Address) (p : StateObject)
          → (o1.address == j) ≡ true
          → s1.state_objects j ≡ some p
          → o1 ≡ p =
        λ j p i f. cc (f, ap (λ g. g j) m ∙ found o1 s j i) in
      record {
        placed = λ j p f. elim (Bool-cases (o1.address == j)) [
          | inl i ↦ sym (ap (λ q. q.address) (same j p i f)) ∙ (==_iff o1.address j).0 i
          | inr i ↦ h.placed j p (ground (arith, i, f, ap (λ g. g j) m))
        ];
        signs = λ j p f. elim (Bool-cases (o1.address == j)) [
          | inl i ↦ sym (ap has_negative (same j p i f)) ∙ n
          | inr i ↦ h.signs j p (ground (arith, i, f, ap (λ g. g j) m))
        ];
      }

  abbrev removed : Address → StateObject → StateDb → StateDb
  removed a o s = record (delete_state_object o s) {
    state_objects_dirty = update s.state_objects_dirty a true;
  }

  abbrev stored : Address → StateObject → StateDb → StateDb
  stored a o s = record (set_state_object (update_root b o) s) {
    trie = update s.trie (update_root b o).address (some (account_of (update_root b o)));
    state_objects_dirty = update s.state_objects_dirty a true;
  }

  written_object :
      (a : Address) (o : StateObject) (s : StateDb)
      → s.state_objects a ≡ some o
      → written s a
        ≡ (if is_condemned b delete_empty o then none else some (account_of (update_root b o)))
  unfolding written
  written_object a o s e = rw (written, e) refl

  finalise_object-Stepped :
      (a : Address) (s : StateDb)
      → IsEncodable s
      → (s1 : StateDb) × (finalise_object b delete_empty a s ≡ ok s1) × Stepped a s s1
  unfolding finalise_object written update_state_object delete_state_object set_state_object
  finalise_object-Stepped a s h = elim (Option-cases (s.state_objects a)) [
    | inl n ↦ (
      s,
      rw (finalise_object, n) refl,
      record {
        trie = λ j. elim (Bool-cases (a == j)) [
          | inl i ↦ rw i (rw (written, n) (ap s.trie (sym ((==_iff a j).0 i))))
          | inr i ↦ rw i refl
        ];
        others = λ j e. refl;
        encodable = h;
      },
    )
    | inr (o, e) ↦ elim (Bool-cases (is_condemned b delete_empty o)) [
      | inl c ↦ (
        removed a o s,
        rw (finalise_object, e, c) refl,
        record {
          trie = λ j. ground (arith, written_object a o s e, c, h.placed a o e);
          others = λ j n. ground (arith, h.placed a o e, n);
          encodable =
              replaced (record o { deleted = true }) s h (h.signs a o e) (removed a o s) refl;
        },
      )
      | inr c ↦
          let (placed, signs) = updated_root_kept o in
          (
            stored a o s,
            rw (finalise_object, e, c, signs, h.signs a o e) refl,
            record {
              trie = λ j. ground (arith, written_object a o s e, c, placed, h.placed a o e);
              others = λ j n. ground (arith, placed, h.placed a o e, n);
              encodable =
                  replaced (update_root b o) s h (signs ∙ h.signs a o e) (stored a o s) refl;
            },
          )
    ]
  ]

  written_same :
      (j : Address) (s s1 : StateDb)
      → s1.state_objects j ≡ s.state_objects j
      → s1.trie j ≡ s.trie j
      → written s1 j ≡ written s j
  unfolding written
  written_same j s s1 h e = elim (Option-cases (s.state_objects j)) [
    | inl n ↦ rw (written, h, n) e
    | inr (o, n) ↦ rw (written, h, n) refl
  ]

  pub record Finished (order : List Address) (s t : StateDb) : Type 0 where
    pub trie : (j : Address) → t.trie j ≡ (if elem j order then written s j else s.trie j)
    pub encodable : IsEncodable t

  pub finalise_objects-Finished :
      (order : List Address) (s : StateDb)
      → IsOnce order
      → IsEncodable s
      → (t : StateDb) × (finalise_objects b delete_empty order s ≡ ok t) × Finished order s t
  unfolding finalise_objects
  finalise_objects-Finished [] s once h = (s, refl, record { trie = λ j. refl; encodable = h })
  finalise_objects-Finished (a ∷ order) s once h =
      let (s1, e, p) = finalise_object-Stepped a s h in
      let (t, f, q) = finalise_objects-Finished order s1 once.1 p.encodable in
      (
        t,
        rw (finalise_objects, e) f,
        record {
          trie = λ j. elim (Bool-cases (a == j)) [
            | inl i ↦
                let z = (==_iff a j).0 i in
                ground
                  (arith, q.trie j, p.trie j, ap (λ x. elem x order) z, once.0, ap (written s) z, i)
            | inr i ↦ ground (
              arith,
              q.trie j,
              p.trie j,
              i,
              written_same j s s1 (p.others j i) (p.trie j ∙ ground (i, arith)),
            )
          ];
          encodable = q.encodable;
        },
      )
