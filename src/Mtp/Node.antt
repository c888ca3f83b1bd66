-- ===== src/Mtp/Node.antt =====
-- common/mtp/node.go: the nodes of a trie, without the flags that a node caches, and what an
-- operation of the trie returns. A byte, and a nibble, is a number; a full node is the function
-- from an index to the child there, of which the indices up to 16 stand for the source's array.
use uranus.Prelude.{ℕ, Bool, true, false, List}

-- `empty` is the source's nil.
pub data Node : Type 0 where
  empty : Node
  value : List ℕ → Node
  short : List ℕ → Node → Node
  full : (ℕ → Node) → Node
  hash : List ℕ → Node

-- Why an operation fails: the error for a node that the database lacks, the two panics, and the
-- model's own end of fuel.
pub data Fault : Type 0 where
  missing_node : List ℕ → Fault
  index_out_of_range : Fault
  invalid_node : Fault
  too_deep : Fault

pub data Result {ℓ} (A : Type ℓ) : Type ℓ where
  ok : A → Result A
  fault : Fault → Result A

infixl 5 ◌>>=◌
abbrev pub ◌>>=◌ {ℓ κ} : {A : Type ℓ} {B : Type κ} → Result A → (A → Result B) → Result B
ok a >>= f = f a
fault e >>= f = fault e

-- `cld != nil`
abbrev pub is_there : Node → Bool
is_there empty = false
is_there _ = true
