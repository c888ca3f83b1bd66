-- ===== src/State/Object.antt =====
-- core/state/state_object.go: accounts and the objects that hold them while they are modified.
-- An address, a hash and a storage word are the number that their bytes spell. A slice of bytes
-- that may be nil is an `Option`. The account's big.Int fields that `newObject` never leaves nil
-- are integers in the object; the other two keep their nil.
use mathlib.Core.Option.{get_or}
use uranus.Prelude.{
  ℕ, Bool, true, false, ◌&&◌, Option, none, some, List, ◌==◌, if◌then◌else◌, update,
}
use uranus.Prelude.Int.{ℤ, pos, is_zero}

abbrev pub Address : Type 0
Address = ℕ

abbrev pub Hash : Type 0
Hash = ℕ

abbrev pub Bytes : Type 0
Bytes = List ℕ

-- The storage trie as `TryGet` reads it, an absent key being the zero word.
abbrev pub StorageTrie : Type 0
StorageTrie = Hash → Hash

-- What the state takes from the trie database and from the hash functions.
pub record Backend : Type 0 where
  -- OpenStorageTrie at the account's address and root
  pub open_storage : Address → Hash → StorageTrie
  -- the trie's Hash
  pub storage_root : StorageTrie → Hash
  -- ContractCode, nil where it fails
  pub contract_code : Hash → Option Bytes
  -- Keccak256Hash of a contract's code
  pub code_hash_of : Bytes → Hash
  -- Keccak256 of nothing
  pub empty_code_hash : Hash

-- The account as it is decoded, its pointers nil where `none`.
pub record Account : Type 0 where
  pub unlocked_balance : Option ℤ
  pub undelegate_timestamp : Option ℤ
  pub locked_balance : Option ℤ
  pub delegate_timestamp : Option ℤ
  pub nonce : ℕ
  pub balance : Option ℤ
  pub root : Hash
  pub code_hash : Option Hash

pub record StateObject : Type 0 where
  pub address : Address
  pub unlocked_balance : Option ℤ
  pub undelegate_timestamp : Option ℤ
  pub locked_balance : ℤ
  pub delegate_timestamp : ℤ
  pub nonce : ℕ
  pub balance : ℤ
  pub root : Hash
  pub code_hash : Hash
  pub trie : Option StorageTrie
  pub code : Option Bytes
  pub cached_storage : Hash → Option Hash
  pub dirty_storage : Hash → Option Hash
  pub dirty_code : Bool
  pub suicided : Bool
  pub deleted : Bool

-- `Account{}`
abbrev pub empty_account : Account
empty_account = record {
  unlocked_balance = none;
  undelegate_timestamp = none;
  locked_balance = none;
  delegate_timestamp = none;
  nonce = 0;
  balance = none;
  root = 0;
  code_hash = none;
}

module _ (b : Backend) where
  unfoldable pub new_object : Address → Account → StateObject
  new_object a acc = record {
    address = a;
    unlocked_balance = acc.unlocked_balance;
    undelegate_timestamp = acc.undelegate_timestamp;
    locked_balance = get_or acc.locked_balance (pos 0);
    delegate_timestamp = get_or acc.delegate_timestamp (pos 0);
    nonce = acc.nonce;
    balance = get_or acc.balance (pos 0);
    root = acc.root;
    code_hash = get_or acc.code_hash b.empty_code_hash;
    trie = none;
    code = none;
    cached_storage = λ k. none;
    dirty_storage = λ k. none;
    dirty_code = false;
    suicided = false;
    deleted = false;
  }

  unfoldable pub is_empty : StateObject → Bool
  is_empty o = o.nonce == 0 && (is_zero o.balance && o.code_hash == b.empty_code_hash)

  -- `getTrie`: the trie of the object, opened on first use
  unfoldable pub get_trie : StateObject → StorageTrie
  get_trie o = get_or o.trie (b.open_storage o.address o.root)

  -- `GetState`: the word, and the object with the word in its cache
  unfoldable pub get_state : Hash → StateObject → Hash × StateObject
  unfolding get_trie
  get_state k o = elim (o.cached_storage k) [
    | some v ↦ (v, o)
    | none ↦
        let v = get_trie o k in
        (
          v,
          record o {
            trie = some (get_trie o);
            cached_storage = update o.cached_storage k (some v);
          },
        )
  ]

  -- `Code`: the code, and the object with the code loaded
  unfoldable pub get_code : StateObject → Option Bytes × StateObject
  get_code o = elim o.code [
    | some c ↦ (some c, o)
    | none ↦
        if o.code_hash == b.empty_code_hash
        then (none, o)
        else (b.contract_code o.code_hash, record o { code = b.contract_code o.code_hash })
  ]

unfoldable pub set_state : Hash → Hash → StateObject → StateObject
set_state k v o = record o {
  cached_storage = update o.cached_storage k (some v);
  dirty_storage = update o.dirty_storage k (some v);
}

unfoldable pub set_code : Hash → Option Bytes → StateObject → StateObject
set_code h c o = record o { code = c; code_hash = h; dirty_code = true }

unfoldable pub mark_suicided : StateObject → StateObject
mark_suicided o = record o { suicided = true }
