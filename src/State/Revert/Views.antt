-- ===== src/State/Revert/Views.antt =====
-- What reads and writes of objects do to the view of a state.
use mathlib.Core.Option.{get_or}
use uranus.Prelude.{
  ◌≡◌, refl, false, none, some, ◌==◌, if◌then◌else◌, update, arith, fun_ext, Option-cases, ap, inl,
  inr,
}
use uranus.State.Object.{
  Address, Hash, Backend, StateObject, new_object, get_trie, get_code, get_state, set_state,
}
use uranus.State.Db.{
  StateDb, Change, balance_change, nonce_change, storage_change, code_change, locked_balance_change,
  unlocked_balance_change, delegate_timestamp_change, undelegate_timestamp_change, set_state_object,
  get_state_object,
}
use uranus.State.Journal.{restore}
use uranus.State.View.{AccountView, read_storage, read_code, object_view, find_object, view}

module _ (b : Backend) where
  -- `restore`, on the view
  abbrev pub restore_view : Change → AccountView → AccountView
  restore_view (balance_change v) w = record w { balance = v }
  restore_view (nonce_change n) w = record w { nonce = n }
  restore_view (storage_change k v) w = record w { storage = update w.storage k v }
  restore_view (code_change c h) w = record w { code_hash = h; code = read_code b h c }
  restore_view (locked_balance_change v) w = record w { locked_balance = v }
  restore_view (unlocked_balance_change v) w = record w { unlocked_balance = some v }
  restore_view (delegate_timestamp_change v) w = record w { delegate_timestamp = v }
  restore_view (undelegate_timestamp_change v) w = record w { undelegate_timestamp = some v }

  read_storage-set_state :
      (o : StateObject) (k v : Hash)
      → read_storage b (set_state k v o) ≡ update (read_storage b o) k v
  unfolding set_state get_trie
  read_storage-set_state o k v = fun_ext λ j. ground arith

  -- The getters return what the view shows, and what they load does not show.
  pub get_state-read_storage :
      (k : Hash) (o : StateObject) → (get_state b k o).0 ≡ read_storage b o k
  unfolding get_state get_trie
  get_state-read_storage k o = ground arith

  pub get_code-read_code : (o : StateObject) → (get_code b o).0 ≡ read_code b o.code_hash o.code
  unfolding get_code
  get_code-read_code o = ground arith

  pub object_view-get_code : (o : StateObject) → object_view b (get_code b o).1 ≡ object_view b o
  unfolding get_code object_view
  object_view-get_code o = ground arith

  read_storage_cached :
      (k : Hash) (o : StateObject)
      → o.cached_storage k ≡ none
      → (λ (j : Hash).
          get_or (update o.cached_storage k (some (get_trie b o k)) j) (get_trie b o j))
        ≡ read_storage b o
  read_storage_cached k o h = fun_ext λ j. ground arith

  pub object_view-get_state :
      (k : Hash) (o : StateObject) → object_view b (get_state b k o).1 ≡ object_view b o
  unfolding get_state object_view
  object_view-get_state k o = elim (Option-cases (o.cached_storage k)) [
    | inl miss ↦
        rw (miss, get_state)
          (ap (λ (w : Hash → Hash). record (object_view b o) { storage = w })
            (read_storage_cached k o miss))
    | inr (v, hit) ↦ rw (hit, get_state)
  ]

  pub object_view-restore :
      (c : Change) (o : StateObject)
      → object_view b (restore c o) ≡ restore_view c (object_view b o)
  unfolding object_view restore
  object_view-restore (storage_change k v) o = rw (read_storage-set_state o k v)
  object_view-restore (balance_change v) o = refl
  object_view-restore _ o = refl

  -- A read makes an object live and shows nothing new.
  pub view-get_state_object :
      (a : Address) (s : StateDb) (j : Address) → view b (get_state_object b a s).1 j ≡ view b s j
  unfolding view get_state_object new_object
  view-get_state_object a s j = ground arith

  pub get_state_object-eq-find_object :
      (a : Address) (s : StateDb) → (get_state_object b a s).0 ≡ find_object b a s
  unfolding get_state_object find_object
  get_state_object-eq-find_object a s = ground arith

  -- A write shows at its address alone.
  pub view-set_state_object :
      (o : StateObject) (s : StateDb) (j : Address)
      → o.deleted ≡ false
      → view b (set_state_object o s) j
        ≡ (if o.address == j then some (object_view b o) else view b s j)
  unfolding view set_state_object find_object
  view-set_state_object o s j h = ground arith
