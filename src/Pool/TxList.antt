-- ===== src/Pool/TxList.antt =====
-- core/txpool/list.go: txList, the transactions of an account, with the highest cost and gas limit
-- that they may have.
use uranus.Prelude.{
  ℕ, ◌+◌, ◌-◌, ◌*◌, ◌/◌, ◌%◌, ◌^◌, Bool, true, false, not, ◌&&◌, ◌||◌, Option, none, some, List, [],
  ◌∷◌, length, ltb, leb, ◌==◌, if◌then◌else◌,
}
use uranus.Prelude.Int.{ℤ, pos, negsuc}
use uranus.Pool.SortedMap
use uranus.Pool.SortedMap.{Tx, SortedMap, cost, sort_txs}

pub record TxList : Type 0 where
  pub strict : Bool
  pub txs : SortedMap
  pub costcap : ℕ
  pub gascap : ℕ

abbrev pub new_tx_list : Bool → TxList
new_tx_list strict = record {
  strict = strict;
  txs = SortedMap.new_tx_sorted_map;
  costcap = 0;
  gascap = 0;
}

unfoldable pub overlaps : Tx → TxList → Bool
overlaps tx l = elim (SortedMap.get tx.nonce l.txs) [ none ↦ false | some old ↦ true ]

-- 100+int64(priceBump), an int64 that wraps around: below 2^63 it is not negative.
unfoldable pub bump_percent : ℕ → ℤ
bump_percent price_bump =
    let percent = (100 + price_bump) % 2 ^ 64 in
    if ltb percent (2 ^ 63) then pos percent else negsuc (2 ^ 64 - percent - 1)

-- Is the price below the old one times the percentage? A threshold that is not positive is above no
-- price.
unfoldable pub is_below : ℤ → ℕ → ℕ → Bool
is_below (pos percent) old_price price = ltb price (old_price * percent / 100)
is_below (negsuc n) old_price price = false

-- The old transaction of the same nonce is the better one.
unfoldable pub is_better : Tx → Tx → ℕ → Bool
unfolding bump_percent is_below
is_better old tx price_bump =
    leb tx.gas_price old.gas_price || is_below (bump_percent price_bump) old.gas_price tx.gas_price

-- The list with a transaction put into it, and the caps raised to it.
unfoldable pub overwrite : Tx → TxList → TxList
unfolding cost
overwrite tx l = record l {
  txs = SortedMap.put tx l.txs;
  costcap = if ltb l.costcap (cost tx) then cost tx else l.costcap;
  gascap = if ltb l.gascap tx.gas_limit then tx.gas_limit else l.gascap;
}

unfoldable pub add : Tx → ℕ → TxList → Bool × Option Tx × TxList
unfolding is_better overwrite
add tx price_bump l = elim (SortedMap.get tx.nonce l.txs) [
  | none ↦ (true, none, overwrite tx l)
  | some old ↦
      if is_better old tx price_bump then (false, none, l) else (true, some old, overwrite tx l)
]

unfoldable pub forward : ℕ → TxList → List (Option Tx) × TxList
forward threshold l =
    let (removed, m) = SortedMap.forward threshold l.txs in (removed, record l { txs = m })

abbrev pub max_uint64 : ℕ
max_uint64 = 2 ^ 64 - 1

-- The loop that looks for the lowest nonce.
unfoldable pub lowest : ℕ → List Tx → ℕ
lowest low [] = low
lowest low (tx ∷ removed) = lowest (if ltb tx.nonce low then tx.nonce else low) removed

abbrev pub exceeds : ℕ → ℕ → Tx → Bool
exceeds cost_limit gas_limit tx = ltb cost_limit (cost tx) || ltb gas_limit tx.gas_limit

abbrev pub is_after : ℕ → Tx → Bool
is_after nonce tx = ltb nonce tx.nonce

-- `Filter` past its shortcut: what is removed, what that invalidates, and the list.
unfoldable pub filter_all : ℕ → ℕ → TxList → List Tx × List Tx × TxList
unfolding lowest
filter_all cost_limit gas_limit l =
    let (removed, m) = SortedMap.filter (exceeds cost_limit gas_limit) l.txs in
    let (invalids, m') = SortedMap.filter (is_after (lowest max_uint64 removed)) m in
    let l' : TxList = record l { txs = m; costcap = cost_limit; gascap = gas_limit } in
    if l.strict && ltb 0 (length removed)
    then (removed, invalids, record l' { txs = m' })
    else (removed, [], l')

unfoldable pub filter : ℕ → ℕ → TxList → List Tx × List Tx × TxList
unfolding filter_all
filter cost_limit gas_limit l =
    if leb l.costcap cost_limit && leb l.gascap gas_limit
    then ([], [], l)
    else filter_all cost_limit gas_limit l

unfoldable pub cap : ℕ → TxList → List (Option Tx) × TxList
cap threshold l = let (drops, m) = SortedMap.cap threshold l.txs in (drops, record l { txs = m })

unfoldable pub remove : Tx → TxList → Bool × List Tx × TxList
remove tx l =
    let (there, m) = SortedMap.remove tx.nonce l.txs in
    let (invalids, m') = SortedMap.filter (is_after tx.nonce) m in
    if not there
    then (false, [], record l { txs = m })
    else if l.strict
    then (true, invalids, record l { txs = m' })
    else (true, [], record l { txs = m })

unfoldable pub ready : ℕ → TxList → List (Option Tx) × TxList
ready start l = let (taken, m) = SortedMap.ready start l.txs in (taken, record l { txs = m })

unfoldable pub tx_count : TxList → ℕ
tx_count l = SortedMap.tx_count l.txs

unfoldable pub is_empty : TxList → Bool
unfolding tx_count
is_empty l = tx_count l == 0

unfoldable pub flatten : TxList → List Tx × TxList
flatten l = let (txs, m) = SortedMap.flatten l.txs in (txs, record l { txs = m })
