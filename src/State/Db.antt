-- ===== src/State/Db.antt =====
-- core/state/statedb.go and journal.go: the state, its journal, and the objects it holds.
-- Go's maps are functions. A count in `dirties` is 0 where the map has no key, as a count that falls
-- to 0 is deleted. `entries` and `revisions` stand with the newest entry, the oldest revision first.
use uranus.Prelude.{ℕ, ◌+◌, Bool, Option, none, some, List, ◌∷◌, if◌then◌else◌, update}
use uranus.Prelude.Int.{ℤ}
use uranus.State.Object.{
  Address, Hash, Bytes, Backend, Account, StateObject, empty_account, new_object,
}

-- core/types/log.go
pub record Log : Type 0 where
  pub address : Address
  pub topics : List Hash
  pub log_data : Bytes
  pub transaction_hash : Hash
  pub transaction_index : ℕ
  pub block_hash : Hash
  pub log_index : ℕ

-- The entries of journal.go that change one account, with what they restore.
pub data Change : Type 0 where
  balance_change : ℤ → Change
  nonce_change : ℕ → Change
  storage_change : Hash → Hash → Change
  code_change : Option Bytes → Hash → Change
  locked_balance_change : ℤ → Change
  unlocked_balance_change : ℤ → Change
  delegate_timestamp_change : ℤ → Change
  undelegate_timestamp_change : ℤ → Change

pub data Entry : Type 0 where
  create_object_change : Address → Entry
  reset_object_change : StateObject → Entry
  suicide_change : Address → Bool → ℤ → Entry
  account_change : Address → Change → Entry
  refund_change : ℕ → Entry
  add_log_change : Hash → Entry
  add_preimage_change : Hash → Entry
  touch_change : Address → Entry

-- `dirtied`
unfoldable pub dirtied : Entry → Option Address
dirtied (create_object_change a) = some a
dirtied (suicide_change a _ _) = some a
dirtied (account_change a _) = some a
dirtied (touch_change a) = some a
dirtied _ = none

pub record Revision : Type 0 where
  pub id : ℕ
  pub journal_index : ℕ

pub record StateDb : Type 0 where
  -- the account trie, as `TryGet` reads and decodes it
  pub trie : Address → Option Account
  pub state_objects : Address → Option StateObject
  pub state_objects_dirty : Address → Bool
  pub refund : ℕ
  pub thash : Hash
  pub bhash : Hash
  pub tx_index : ℕ
  pub logs : Hash → List Log
  pub log_size : ℕ
  pub preimages : Hash → Option Bytes
  pub entries : List Entry
  pub dirties : Address → ℕ
  pub revisions : List Revision
  pub next_revision_id : ℕ

-- HexToAddress("0000000000000000000000000000000000000003")
abbrev pub ripemd : Address
ripemd = 3

-- `journal.dirty`
unfoldable pub dirty : Address → StateDb → StateDb
dirty a s = record s { dirties = update s.dirties a (s.dirties a + 1) }

-- `journal.append`
unfoldable pub append : Entry → StateDb → StateDb
unfolding dirtied dirty
append e s =
    let s' = record s { entries = e ∷ s.entries } in
    elim (dirtied e) [ none ↦ s' | some a ↦ dirty a s' ]

unfoldable pub set_state_object : StateObject → StateDb → StateDb
set_state_object o s = record s { state_objects = update s.state_objects o.address (some o) }

-- The journal entry of `createObject`.
unfoldable pub creation : Address → Option StateObject → Entry
creation a none = create_object_change a
creation a (some prev) = reset_object_change prev

module _ (b : Backend) where
  -- `getStateObject`: the live object, or the one of the trie, which becomes live
  unfoldable pub get_state_object : Address → StateDb → Option StateObject × StateDb
  unfolding set_state_object
  get_state_object a s = elim (s.state_objects a) [
    | some o ↦ (if o.deleted then none else some o, s)
    | none ↦ elim (s.trie a) [
      | none ↦ (none, s)
      | some acc ↦ (some (new_object b a acc), set_state_object (new_object b a acc) s)
    ]
  ]

  unfoldable pub create_object : Address → StateDb → StateObject × Option StateObject × StateDb
  unfolding get_state_object creation append
  create_object a s =
      let (prev, s1) = get_state_object a s in
      let o = new_object b a empty_account in
      (o, prev, set_state_object o (append (creation a prev) s1))

  -- `GetOrNewStateObject`
  unfoldable pub get_or_new_state_object : Address → StateDb → StateObject × StateDb
  unfolding create_object
  get_or_new_state_object a s =
      let (found, s1) = get_state_object a s in
      elim found [ some o ↦ (o, s1) | none ↦ let (o, prev, s2) = create_object a s1 in (o, s2) ]
