-- ===== src/Pool/Run.antt =====
-- core/txpool/list.go: any sequence of operations on a txSortedMap, against an ordered list of
-- transactions.
use mathlib.Core.List.{reverse}
use uranus.Prelude.{
  ℕ, ◌≡◌, refl, ap, Bool, true, false, not, Option, none, some, List, [], ◌∷◌, map, length, take,
  drop, All,
}
use uranus.Pool.SortedMap
use uranus.Pool.SortedMap.{
  Tx, SortedMap, get_tx, select, delete_tx, insert_tx, sort_txs, forward_loop, cap_loop, ready_loop,
  ready_from,
}
use uranus.Pool.Refines.{
  Refines, IsUint64, get-Refines, len-Refines, flatten-Refines, flatten_keeps-Refines, put-Refines,
  remove-Refines, filter-Refines,
}
use uranus.Pool.Loops.{is_below}
use uranus.Pool.Steps.{forward-Refines, cap-Refines, ready_from-Refines, ready_txs, left_txs}

-- The operations as data.
pub data MapOp : Type 0 where
  get_op forward_op cap_op remove_op ready_op : ℕ → MapOp
  put_op : Tx → MapOp
  filter_op : (Tx → Bool) → MapOp
  flatten_op len_op : MapOp

pub data Answer : Type 0 where
  done : Answer
  found : Option Tx → Answer
  txs_of : List (Option Tx) → Answer
  flag : Bool → Answer
  size : ℕ → Answer

-- What `filter` removes comes in no order of its own, so it is compared in the order of the nonces.
unfoldable pub apply : MapOp → SortedMap → Answer × SortedMap
unfolding sort_txs
apply (get_op n) m = (found (SortedMap.get n m), m)
apply (put_op tx) m = (done, SortedMap.put tx m)
apply (forward_op n) m = let (removed, m') = SortedMap.forward n m in (txs_of removed, m')
apply (filter_op p) m =
    let (removed, m') = SortedMap.filter p m in (txs_of (map some (sort_txs removed)), m')
apply (cap_op n) m = let (drops, m') = SortedMap.cap n m in (txs_of drops, m')
apply (remove_op n) m = let (there, m') = SortedMap.remove n m in (flag there, m')
apply (ready_op n) m = let (taken, m') = SortedMap.ready n m in (txs_of taken, m')
apply flatten_op m = let (txs, m') = SortedMap.flatten m in (txs_of (map some txs), m')
apply len_op m = (size (SortedMap.tx_count m), m)

-- The same on an ordered list.
abbrev pub apply_list : MapOp → List Tx → Answer × List Tx
apply_list (get_op n) txs = (found (get_tx n txs), txs)
apply_list (put_op tx) txs = (done, insert_tx tx (delete_tx tx.nonce txs))
apply_list (forward_op n) txs =
    (txs_of (map some (select (is_below n) txs)), select (λ tx. not (is_below n tx)) txs)
apply_list (filter_op p) txs = (txs_of (map some (select p txs)), select (λ tx. not (p tx)) txs)
apply_list (cap_op n) txs = (txs_of (map some (reverse (drop n txs))), take n txs)
apply_list (remove_op n) txs =
    (flag (elim (get_tx n txs) as (λ _. Bool) [ none ↦ false | some t ↦ true ]), delete_tx n txs)
apply_list (ready_op n) txs = (txs_of (map some (ready_txs n txs)), left_txs n txs)
apply_list flatten_op txs = (txs_of (map some txs), txs)
apply_list len_op txs = (size (length txs), txs)

abbrev pub IsMapOp : MapOp → Type 0
IsMapOp (put_op tx) = IsUint64 tx
IsMapOp _ = Unit {0}

apply-Refines :
    (op : MapOp) (m : SortedMap) (txs : List Tx)
    → IsMapOp op
    → Refines m txs
    → ((apply op m).0 ≡ (apply_list op txs).0) × Refines (apply op m).1 (apply_list op txs).1
unfolding apply SortedMap.ready
apply-Refines (get_op n) m txs h r = (ap found (get-Refines r n), r)
apply-Refines (put_op tx) m txs h r = (refl, put-Refines r tx h)
apply-Refines (forward_op n) m txs h r = let s = forward-Refines r n in (ap txs_of s.0, s.1)
apply-Refines (filter_op p) m txs h r =
    let s = filter-Refines r p in (ap (λ l. txs_of (map some l)) s.0, s.1)
apply-Refines (cap_op n) m txs h r = let s = cap-Refines r n in (ap txs_of s.0, s.1)
apply-Refines (remove_op n) m txs h r = let s = remove-Refines r n in (ap flag s.0, s.1)
apply-Refines (ready_op n) m txs h r =
    let s = ready_from-Refines m txs r n m.index r.indexed in (ap txs_of s.0, s.1)
apply-Refines flatten_op m txs h r =
    (ap (λ l. txs_of (map some l)) (flatten-Refines r), flatten_keeps-Refines r)
apply-Refines len_op m txs h r = (ap size (len-Refines r), r)

unfoldable pub run : List MapOp → SortedMap → List Answer
unfolding apply
run [] m = []
run (op ∷ ops) m = let (answer, m') = apply op m in answer ∷ run ops m'

abbrev pub run_list : List MapOp → List Tx → List Answer
run_list [] txs = []
run_list (op ∷ ops) txs = (apply_list op txs).0 ∷ run_list ops (apply_list op txs).1

-- A txSortedMap that stands for a list of transactions, in strict order of their nonces and with
-- uint64 nonces, answers any sequence of Get, Put, Forward, Filter, Cap, Remove, Ready, Flatten
-- and Len as the plain operations on that list do: its index, its cache and the order in which Go
-- walks through its map never show, where what Filter removes is compared in the order of the
-- nonces.
pub run-run_list :
    (ops : List MapOp) (m : SortedMap) (txs : List Tx)
    → All IsMapOp ops
    → Refines m txs
    → run ops m ≡ run_list ops txs
unfolding run
run-run_list [] m txs h r = refl
run-run_list (op ∷ ops) m txs h r =
    let s = apply-Refines op m txs h.0 r in
    rw (s.0, run-run_list ops (apply op m).1 (apply_list op txs).1 h.1 s.1) refl
