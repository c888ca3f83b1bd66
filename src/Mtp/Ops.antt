-- ===== src/Mtp/Ops.antt =====
-- common/mtp/trie.go: TryGet, insert, delete and TryUpdate. `load` stands for the database's Node
-- followed by the decoding of a node; the fuel counts the nodes that are loaded one below another.
use uranus.Prelude.{
  ℕ, zero, suc, ◌+◌, Bool, true, false, not, ◌||◌, Option, none, some, List, [], ◌∷◌, ◌++◌, length,
  take, drop, get_elem?, ltb, ◌==◌, if◌then◌else◌, update,
}
use uranus.Mtp.Node.{
  Node, empty, value, short, full, hash, Result, ok, fault, missing_node, index_out_of_range,
  invalid_node, too_deep, ◌>>=◌, is_there,
}
use uranus.Mtp.Keys.{keybytes_to_hex, prefix_len, same}

-- What `tryGet` returns: the value, the node with what was loaded, and whether anything was.
pub record Got : Type 0 where
  pub found : Option (List ℕ)
  pub node : Node
  pub resolved : Bool

-- `insert` and `delete` return whether the node changed, and the new node.
abbrev pub Altered : Type 0
Altered = Bool × Node

-- `if err == nil && didResolve` put the loaded child in its place.
abbrev pub regrow : (Node → Node) → Node → Got → Got
regrow place n g = if g.resolved then record g { node = place g.node } else record g { node = n }

-- `if !dirty { return false, n }`, else the node about the new child.
abbrev pub rebuild : (Node → Node) → Node → Altered → Altered
rebuild place n (true, nn) = (true, place nn)
rebuild place n (false, nn) = (false, n)

-- `insert(nil, prefix, key, value)`
unfoldable pub insert_new : List ℕ → Node → Node
insert_new [] v = v
insert_new (x ∷ key) v = short (x ∷ key) v

-- The node where a key leaves a short node's: a branch with both, below what they share.
unfoldable pub branch_out : ℕ → List ℕ → Node → List ℕ → Node → Result Node
unfolding insert_new
branch_out matchlen nkey val key v = elim (get_elem? nkey matchlen) [
  | none ↦ fault index_out_of_range
  | some i ↦ elim (get_elem? key matchlen) [
    | none ↦ fault index_out_of_range
    | some j ↦
        let one = update (λ _. empty) i (insert_new (drop (matchlen + 1) nkey) val) in
        let branch = full (update one j (insert_new (drop (matchlen + 1) key) v)) in
        ok (if matchlen == 0 then branch else short (take matchlen key) branch)
  ]
]

-- What is left among the children: the source's -1, an index and -2.
pub data Left : Type 0 where
  nothing : Left
  one : ℕ → Left
  many : Left

-- The loop over the children from `i` on, with the rounds to go.
unfoldable pub count_left : (ℕ → Node) → ℕ → ℕ → Left → Left
count_left f zero i pos = pos
count_left f (suc rounds) i nothing =
    count_left f rounds (suc i) (if is_there (f i) then one i else nothing)
count_left f (suc rounds) i (one p) = elim (is_there (f i)) [
  | true ↦ many
  | false ↦ count_left f rounds (suc i) (one p)
]
count_left f (suc rounds) i many = many

-- `shortNode{[]byte{byte(pos)}, child}`, with the key of a child that is a short node.
abbrev pub tack : ℕ → Node → Node → Node
tack p child (short k v) = short (p ∷ k) v
tack p child _ = short (p ∷ []) child

-- `delete` puts a short node about the new child, or merges the two.
abbrev pub merge : List ℕ → Node → Node
merge nkey (short k v) = short (nkey ++ k) v
merge nkey child = short nkey child

module _ (load : List ℕ → Option Node) where
  unfoldable pub resolve_hash : List ℕ → Result Node
  resolve_hash h = elim (load h) [ none ↦ fault (missing_node h) | some n ↦ ok n ]

  unfoldable pub resolve : Node → Result Node
  unfolding resolve_hash
  resolve (hash h) = resolve_hash h
  resolve n = ok n

  -- `tryGet` of the key from its position on.
  unfoldable pub try_get : ℕ → Node → List ℕ → Result Got
  unfolding resolve_hash
  try_get d empty key = ok (record { found = none; node = empty; resolved = false })
  try_get d (value v) key = ok (record { found = some v; node = value v; resolved = false })
  try_get d (short nkey val) key =
      let rest = try_get d val (drop (length nkey) key) in
      if ltb (length key) (length nkey) || not (same nkey (take (length nkey) key))
      then ok (record { found = none; node = short nkey val; resolved = false })
      else (rest >>= λ g. ok (regrow (short nkey) (short nkey val) g))
  try_get d (full f) [] = fault index_out_of_range
  try_get d (full f) (x ∷ key) =
      try_get d (f x) key >>= λ g. ok (regrow (λ nn. full (update f x nn)) (full f) g)
  try_get zero (hash h) key = fault too_deep
  try_get (suc d) (hash h) key =
      resolve_hash h >>= λ child. try_get d child key >>= λ g. ok (record g { resolved = true })

  unfoldable pub insert : ℕ → Node → List ℕ → List ℕ → Result Altered
  unfolding resolve_hash branch_out
  insert d (value w) [] v = ok (not (same w v), value v)
  insert d n [] v = ok (true, value v)
  insert d empty (x ∷ key) v = ok (true, short (x ∷ key) (value v))
  insert d (value w) (x ∷ key) v = fault invalid_node
  insert d (short nkey val) (x ∷ key) v =
      let matchlen = prefix_len (x ∷ key) nkey in
      let below = insert d val (drop matchlen (x ∷ key)) v in
      if matchlen == length nkey
      then (below >>= λ r. ok (rebuild (short nkey) (short nkey val) r))
      else (branch_out matchlen nkey val (x ∷ key) (value v) >>= λ nn. ok (true, nn))
  insert d (full f) (x ∷ key) v =
      insert d (f x) key v >>= λ r. ok (rebuild (λ nn. full (update f x nn)) (full f) r)
  insert zero (hash h) (x ∷ key) v = fault too_deep
  insert (suc d) (hash h) (x ∷ key) v =
      resolve_hash h >>= λ rn. insert d rn (x ∷ key) v >>= λ r. ok (rebuild (λ nn. nn) rn r)

  -- A full node with one child left becomes a short node.
  unfoldable pub reduce : (ℕ → Node) → Left → Result Node
  unfolding resolve
  reduce f (one p) =
      if p == 16
      then ok (short (p ∷ []) (f p))
      else (resolve (f p) >>= λ cnode. ok (tack p (f p) cnode))
  reduce f _ = ok (full f)

  -- The new full node after a child of it has changed.
  unfoldable pub after_delete : (ℕ → Node) → ℕ → Altered → Result Altered
  unfolding count_left reduce
  after_delete f x (false, nn) = ok (false, full f)
  after_delete f x (true, nn) =
      let g = update f x nn in reduce g (count_left g 17 0 nothing) >>= λ n. ok (true, n)

  unfoldable pub delete : ℕ → Node → List ℕ → Result Altered
  unfolding resolve_hash after_delete
  delete d empty key = ok (false, empty)
  delete d (value w) key = ok (true, empty)
  delete d (short nkey val) key =
      let matchlen = prefix_len key nkey in
      let below = delete d val (drop (length nkey) key) in
      if ltb matchlen (length nkey)
      then ok (false, short nkey val)
      else if matchlen == length key
      then ok (true, empty)
      else (below >>= λ r. ok (rebuild (merge nkey) (short nkey val) r))
  delete d (full f) [] = fault index_out_of_range
  delete d (full f) (x ∷ key) = delete d (f x) key >>= after_delete f x
  delete zero (hash h) key = fault too_deep
  delete (suc d) (hash h) key =
      resolve_hash h >>= λ rn. delete d rn key >>= λ r. ok (rebuild (λ nn. nn) rn r)

  -- `TryGet`, `TryDelete` and `TryUpdate` of a trie without a prefix, by its root.
  unfoldable pub try_get_key : ℕ → Node → List ℕ → Result (Option (List ℕ) × Node)
  unfolding keybytes_to_hex try_get
  try_get_key d root key = try_get d root (keybytes_to_hex key) >>= λ g.
      ok (g.found, if g.resolved then g.node else root)

  unfoldable pub try_delete : ℕ → Node → List ℕ → Result Node
  unfolding keybytes_to_hex delete
  try_delete d root key = delete d root (keybytes_to_hex key) >>= λ r. ok r.1

  unfoldable pub try_update : ℕ → Node → List ℕ → List ℕ → Result Node
  unfolding keybytes_to_hex insert delete
  try_update d root key v =
      let k = keybytes_to_hex key in
      (if length v == 0 then delete d root k else insert d root k v) >>= λ r. ok r.1
