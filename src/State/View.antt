-- ===== src/State/View.antt =====
-- What the callers of the state can read: the account behind an address, whether it is live or
-- still in the trie and whether its code and storage are loaded, and the other values of the state.
use mathlib.Core.Option.{get_or}
use uranus.Prelude.{
  ℕ, ◌<◌, ◌^◌, ◌≡◌, ◌≢◌, refl, ◌∙◌, Bool, false, Option, none, some, ◌==◌, All, if◌then◌else◌,
}
use uranus.Prelude.Int.{ℤ}
use uranus.State.Object.{Address, Hash, Bytes, Backend, StateObject, new_object, get_trie}
use uranus.State.Db.{Entry, reset_object_change, StateDb, ripemd}

pub record AccountView : Type 0 where
  pub address : Address
  pub unlocked_balance : Option ℤ
  pub undelegate_timestamp : Option ℤ
  pub locked_balance : ℤ
  pub delegate_timestamp : ℤ
  pub nonce : ℕ
  pub balance : ℤ
  pub root : Hash
  pub code_hash : Hash
  pub code : Option Bytes
  pub storage : Hash → Hash
  pub suicided : Bool

module _ (b : Backend) where
  -- the storage behind the cache, and the cache over it
  abbrev pub read_storage : StateObject → Hash → Hash
  read_storage o k = get_or (o.cached_storage k) (get_trie b o k)

  -- the code behind a hash, unless code is loaded
  abbrev pub read_code : Hash → Option Bytes → Option Bytes
  read_code h none = if h == b.empty_code_hash then none else b.contract_code h
  read_code h (some c) = some c

  unfoldable pub object_view : StateObject → AccountView
  unfolding get_trie
  object_view o = record {
    address = o.address;
    unlocked_balance = o.unlocked_balance;
    undelegate_timestamp = o.undelegate_timestamp;
    locked_balance = o.locked_balance;
    delegate_timestamp = o.delegate_timestamp;
    nonce = o.nonce;
    balance = o.balance;
    root = o.root;
    code_hash = o.code_hash;
    code = read_code o.code_hash o.code;
    storage = read_storage o;
    suicided = o.suicided;
  }

  -- `getStateObject` without its effect
  unfoldable pub find_object : Address → StateDb → Option StateObject
  find_object a s = elim (s.state_objects a) [
    | some o ↦ if o.deleted then none else some o
    | none ↦ elim (s.trie a) [ none ↦ none | some acc ↦ some (new_object b a acc) ]
  ]

  unfoldable pub view : StateDb → Address → Option AccountView
  unfolding object_view find_object
  view s a = elim (find_object a s) [ none ↦ none | some o ↦ some (object_view o) ]

  -- Two states that no caller tells apart. The dirty count of `ripemd` is left out, as `touch`
  -- raises it outside the journal.
  pub record Same (s t : StateDb) : Type 0 where
    pub trie : (a : Address) → s.trie a ≡ t.trie a
    pub views : (a : Address) → view s a ≡ view t a
    pub refund : s.refund ≡ t.refund
    pub logs : (h : Hash) → s.logs h ≡ t.logs h
    pub log_size : s.log_size ≡ t.log_size
    pub preimages : (h : Hash) → s.preimages h ≡ t.preimages h
    pub dirties : (a : Address) → a ≢ ripemd → s.dirties a ≡ t.dirties a

  pub Same-refl : (s : StateDb) → Same s s
  Same-refl s = record {
    trie = λ a. refl;
    views = λ a. refl;
    refund = refl;
    logs = λ h. refl;
    log_size = refl;
    preimages = λ h. refl;
    dirties = λ a n. refl;
  }

  pub Same-trans : {s t u : StateDb} → Same s t → Same t u → Same s u
  Same-trans p q = record {
    trie = λ a. p.trie a ∙ q.trie a;
    views = λ a. p.views a ∙ q.views a;
    refund = p.refund ∙ q.refund;
    logs = λ h. p.logs h ∙ q.logs h;
    log_size = p.log_size ∙ q.log_size;
    preimages = λ h. p.preimages h ∙ q.preimages h;
    dirties = λ a n. p.dirties a n ∙ q.dirties a n;
  }

-- An entry that puts an object back does not put back a deleted one.
abbrev pub IsRestorable : Entry → Type 0
IsRestorable (reset_object_change prev) = prev.deleted ≡ false
IsRestorable _ = Unit

-- A well-formed state: an object stands at its own address, an object that is marked deleted is gone
-- from the trie, and no deleted object waits in the journal.
pub record IsSound (s : StateDb) : Type 0 where
  pub placed : (a : Address) (o : StateObject) → s.state_objects a ≡ some o → o.address ≡ a
  pub gone :
      (a : Address) (o : StateObject)
      → s.state_objects a ≡ some o
      → o.deleted ≢ false
      → s.trie a ≡ none
  pub counted : s.log_size < 2 ^ 64
  pub restorable : All IsRestorable s.entries
