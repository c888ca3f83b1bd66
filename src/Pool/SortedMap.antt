-- ===== src/Pool/SortedMap.antt =====
-- core/txpool/list.go: txSortedMap. The items of a Go map are a list, in the order in which Go walks
-- through them, which may be any; a heap of nonces is the sorted list of them, of which the source
-- reads the first, and all of them only after it has sorted them. A pointer that may be nil is an
-- option.
use uranus.Prelude.{
  ℕ, zero, suc, ◌+◌, ◌-◌, ◌*◌, ◌%◌, ◌^◌, Bool, true, false, not, Option, none, some, List, [], ◌∷◌,
  map, length, take, drop, get_or, ltb, leb, ◌==◌, if◌then◌else◌,
}

-- The fields of a transaction that the lists read; amounts are not negative.
pub record Tx : Type 0 where
  pub nonce : ℕ
  pub gas_price : ℕ
  pub gas_limit : ℕ
  pub value : ℕ

unfoldable pub cost : Tx → ℕ
cost tx = tx.gas_price * tx.gas_limit + tx.value

-- `m[nonce]`, none for nil
abbrev pub get_tx : ℕ → List Tx → Option Tx
get_tx n [] = none
get_tx n (tx ∷ items) = if tx.nonce == n then some tx else get_tx n items

-- The items that pass a test.
abbrev pub select : (Tx → Bool) → List Tx → List Tx
select p [] = []
select p (tx ∷ items) = let rest = select p items in if p tx then tx ∷ rest else rest

abbrev pub is_other : ℕ → Tx → Bool
is_other n tx = not (tx.nonce == n)

-- `delete(m, nonce)`
abbrev pub delete_tx : ℕ → List Tx → List Tx
delete_tx n items = select (is_other n) items

-- `heap.Push` and `heap.Init` of nonces, and the removal of the first occurrence of one.
unfoldable pub push_nonce : ℕ → List ℕ → List ℕ
push_nonce n [] = n ∷ []
push_nonce n (m ∷ index) = if leb n m then n ∷ m ∷ index else m ∷ push_nonce n index

unfoldable pub init_nonces : List ℕ → List ℕ
unfolding push_nonce
init_nonces [] = []
init_nonces (n ∷ index) = push_nonce n (init_nonces index)

unfoldable pub remove_nonce : ℕ → List ℕ → List ℕ
remove_nonce n [] = []
remove_nonce n (m ∷ index) = if m == n then index else m ∷ remove_nonce n index

-- `sort.Sort(types.TxsByNonce(txs))`
unfoldable pub insert_tx : Tx → List Tx → List Tx
insert_tx tx [] = tx ∷ []
insert_tx tx (t ∷ txs) = if leb tx.nonce t.nonce then tx ∷ t ∷ txs else t ∷ insert_tx tx txs

unfoldable pub sort_txs : List Tx → List Tx
unfolding insert_tx
sort_txs [] = []
sort_txs (tx ∷ txs) = insert_tx tx (sort_txs txs)

pub record SortedMap : Type 0 where
  pub items : List Tx
  pub index : List ℕ
  pub cache : Option (List Tx)

abbrev pub new_tx_sorted_map : SortedMap
new_tx_sorted_map = record { items = []; index = []; cache = none }

unfoldable pub get : ℕ → SortedMap → Option Tx
get n m = get_tx n m.items

unfoldable pub put : Tx → SortedMap → SortedMap
unfolding push_nonce
put tx m =
    let index : List ℕ = elim (get_tx tx.nonce m.items) [
      | none ↦ push_nonce tx.nonce m.index
      | some t ↦ m.index
    ] in
    record { items = tx ∷ delete_tx tx.nonce m.items; index = index; cache = none }

-- What a loop over the index leaves: the transactions that it took, the items and the index.
abbrev pub Taken : Type 0
Taken = List (Option Tx) × List Tx × List ℕ

unfoldable pub forward_loop : ℕ → List ℕ → List Tx → Taken
forward_loop threshold [] items = ([], items, [])
forward_loop threshold (n ∷ index) items =
    let (taken, items', index') = forward_loop threshold index (delete_tx n items) in
    if ltb n threshold then (get_tx n items ∷ taken, items', index') else ([], items, n ∷ index)

unfoldable pub forward : ℕ → SortedMap → List (Option Tx) × SortedMap
unfolding forward_loop
forward threshold m =
    let (removed, items, index) = forward_loop threshold m.index m.items in
    let cache : Option (List Tx) = elim m.cache [
      | none ↦ none
      | some c ↦ some (drop (length removed) c)
    ] in
    (removed, record { items = items; index = index; cache = cache })

unfoldable pub filter : (Tx → Bool) → SortedMap → List Tx × SortedMap
unfolding init_nonces
filter p m =
    let removed = select p m.items in
    let items = select (λ tx. not (p tx)) m.items in
    let m' : SortedMap = record {
      items = items;
      index = init_nonces (map (λ tx. tx.nonce) items);
      cache = none;
    } in
    (removed, if ltb 0 (length removed) then m' else record m { items = items })

-- The loop over the sizes above the threshold.
unfoldable pub cap_loop : ℕ → ℕ → List ℕ → List Tx → List (Option Tx) × List Tx
cap_loop zero threshold index items = ([], items)
cap_loop (suc above) threshold index items =
    let n = get_or index (threshold + above) 0 in
    let (drops, items') = cap_loop above threshold index (delete_tx n items) in
    (get_tx n items ∷ drops, items')

unfoldable pub cap : ℕ → SortedMap → List (Option Tx) × SortedMap
unfolding cap_loop
cap threshold m =
    let (drops, items) = cap_loop (length m.items - threshold) threshold m.index m.items in
    let cache : Option (List Tx) = elim m.cache [
      | none ↦ none
      | some c ↦ some (take (length c - length drops) c)
    ] in
    if leb (length m.items) threshold
    then ([], m)
    else (drops, record { items = items; index = take threshold m.index; cache = cache })

unfoldable pub remove : ℕ → SortedMap → Bool × SortedMap
unfolding remove_nonce
remove n m = elim (get_tx n m.items) [
  | none ↦ (false, m)
  | some tx ↦
      (true, record { items = delete_tx n m.items; index = remove_nonce n m.index; cache = none })
]

unfoldable pub ready_loop : ℕ → List ℕ → List Tx → Taken
ready_loop next [] items = ([], items, [])
ready_loop next (n ∷ index) items =
    let (taken, items', index') = ready_loop ((next + 1) % 2 ^ 64) index (delete_tx next items) in
    if n == next then (get_tx next items ∷ taken, items', index') else ([], items, n ∷ index)

-- From the first nonce of the index on.
unfoldable pub ready_from : List ℕ → ℕ → SortedMap → List (Option Tx) × SortedMap
unfolding ready_loop
ready_from [] start m = ([], m)
ready_from (first ∷ rest) start m =
    let (taken, items, index) = ready_loop first m.index m.items in
    if ltb start first
    then ([], m)
    else (taken, record { items = items; index = index; cache = none })

unfoldable pub ready : ℕ → SortedMap → List (Option Tx) × SortedMap
unfolding ready_from
ready start m = ready_from m.index start m

unfoldable pub tx_count : SortedMap → ℕ
tx_count m = length m.items

unfoldable pub flatten : SortedMap → List Tx × SortedMap
unfolding sort_txs
flatten m = elim m.cache [
  | none ↦ (sort_txs m.items, record m { cache = some (sort_txs m.items) })
  | some c ↦ (c, m)
]
