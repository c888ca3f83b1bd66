-- ===== src/State/Finalise/Tests.antt =====
-- Two dirty accounts, one of which has suicided, and the theorems about Finalise applied to them.
use uranus.Prelude.{
  ℕ, ltb, true, false, Bool-cases, inl, inr, ap, ◌∙◌, ==_iff, elem, ◌≡◌, ◌⊎◌, refl, none, some, [],
  ◌∷◌, ◌==◌, if◌then◌else◌, ok, arith, fun_ext,
}
use uranus.Prelude.Int.{pos}
use uranus.State.Object.{Address, StateObject, Backend, get_trie}
use uranus.State.Db.{StateDb}
use uranus.State.View.{view}
use uranus.State.Finalise.{finalise, has_negative}
use uranus.State.Finalise.Written.{IsEncodable}
use uranus.State.Finalise.Final.{final, final_storage, is_leaving, finalise-final}
use uranus.State.Finalise.Reloaded.{IsCached, reopened, reloaded_view, finalise-reloaded}

-- A storage has the word of the key 7 only, which is its root.
abbrev small_backend : Backend
small_backend = record {
  open_storage = λ a root k. if k == 7 then root else 0;
  storage_root = λ t. t 7;
  contract_code = λ h. none;
  code_hash_of = λ code. 0;
  empty_code_hash = 0;
}

-- The word 70 was read and is overwritten with 71.
abbrev staying : StateObject
staying = record {
  address = 2;
  unlocked_balance = none;
  undelegate_timestamp = some (pos 3);
  locked_balance = pos 5;
  delegate_timestamp = pos 0;
  nonce = 4;
  balance = pos 100;
  root = 70;
  code_hash = 0;
  trie = none;
  code = none;
  cached_storage = λ k. if k == 7 then some 71 else none;
  dirty_storage = λ k. if k == 7 then some 71 else none;
  dirty_code = false;
  suicided = false;
  deleted = false;
}

abbrev leaving : StateObject
leaving = record staying { address = 1; suicided = true }

abbrev dirty_db : StateDb
dirty_db = record {
  trie = λ a. none;
  state_objects = λ a. if 1 == a then some leaving else if 2 == a then some staying else none;
  state_objects_dirty = λ a. false;
  refund = 7;
  thash = 0;
  bhash = 0;
  tx_index = 0;
  logs = λ h. [];
  log_size = 0;
  preimages = λ h. none;
  entries = [];
  dirties = λ a. if 1 == a then 2 else if 2 == a then 1 else 0;
  revisions = [];
  next_revision_id = 0;
}

the_two :
    (a : Address) (o : StateObject)
    → dirty_db.state_objects a ≡ some o
    → ((o ≡ leaving) × (1 ≡ a)) ⊎ ((o ≡ staying) × (2 ≡ a))
the_two a o found = elim (Bool-cases (1 == a)) [
  | inl e ↦ inl (cc (found, e), (==_iff 1 a).0 e)
  | inr n ↦ elim (Bool-cases (2 == a)) [
    | inl e ↦ inr (cc (found, n, e), (==_iff 2 a).0 e)
    | inr m ↦ absurd (cc (found, n, m))
  ]
]

dirty_db-IsEncodable : IsEncodable dirty_db
dirty_db-IsEncodable = record {
  placed = λ a o found. elim (the_two a o found) [
    | inl (same, here) ↦ ap (λ p. p.address) same ∙ here
    | inr (same, here) ↦ ap (λ p. p.address) same ∙ here
  ];
  signs = λ a o found. elim (the_two a o found) [
    | inl (same, here) ↦ ap has_negative same
    | inr (same, here) ↦ ap has_negative same
  ];
}

all_dirty : (j : ℕ) → ltb 0 (dirty_db.dirties j) ≡ true → elem j (2 ∷ 9 ∷ 1 ∷ []) ≡ true
all_dirty j h = ground arith

finalise-final_example :
    (t : StateDb) × (finalise small_backend true (2 ∷ 9 ∷ 1 ∷ []) dirty_db ≡ ok t)
    × ((j : Address)
        → t.trie j ≡ (
            if ltb 0 (dirty_db.dirties j)
            then final small_backend true dirty_db j
            else dirty_db.trie j))
    × ((j : Address) → t.dirties j ≡ 0)
    × (t.entries ≡ [])
    × (t.revisions ≡ [])
    × (t.refund ≡ 0)
finalise-final_example =
    finalise-final small_backend true (2 ∷ 9 ∷ 1 ∷ []) dirty_db (refl, (refl, (refl, tt))) all_dirty
      dirty_db-IsEncodable

staying-IsCached : IsCached small_backend staying
unfolding get_trie
staying-IsCached k = refl

staying-opened :
    small_backend.open_storage 2 (small_backend.storage_root (final_storage small_backend staying))
    ≡ final_storage small_backend staying
staying-opened = fun_ext λ k. ground arith

finalise-reloaded_example :
    (t : StateDb) × (finalise small_backend true (2 ∷ 9 ∷ 1 ∷ []) dirty_db ≡ ok t)
    × (view small_backend (reopened t) 2 ≡ (
        if is_leaving small_backend true staying
        then none
        else some (reloaded_view small_backend staying)))
finalise-reloaded_example =
    finalise-reloaded small_backend true (2 ∷ 9 ∷ 1 ∷ []) dirty_db 2 staying
      (refl, (refl, (refl, tt))) all_dirty dirty_db-IsEncodable refl refl staying-IsCached
      staying-opened
