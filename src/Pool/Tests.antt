-- ===== src/Pool/Tests.antt =====
-- Three transactions, and the theorems about the pool's lists applied to them.
use uranus.Prelude.{◌^◌, ◌≡◌, refl, true, some, List, [], ◌∷◌, arith}
use uranus.Pool.SortedMap
use uranus.Pool.SortedMap.{Tx, SortedMap, cost, sort_txs, insert_tx}
use uranus.Pool.Refines.{Refines, put-Refines, new_tx_sorted_map-Refines}
use uranus.Pool.Run.{
  run, run-run_list, found, txs_of, done, size, put_op, get_op, ready_op, cap_op, forward_op,
  flatten_op, len_op,
}
use uranus.Pool.TxList
use uranus.Pool.TxList.{TxList, exceeds}
use uranus.Pool.Limits.{Lists}
use uranus.Pool.Filtered.{Filters, filter-Filters}
use uranus.Pool.Accepts.{Adds, add-Adds, add-wrapped_bump}
use uranus.Pool.Strict.{take_all, IsGapless, take_all-IsGapless, forwarding, filtering, removing}

abbrev first_tx : Tx
first_tx = record { nonce = 7; gas_price = 10; gas_limit = 21000; value = 5 }

abbrev second_tx : Tx
second_tx = record { nonce = 8; gas_price = 20; gas_limit = 30000; value = 0 }

abbrev third_tx : Tx
third_tx = record { nonce = 9; gas_price = 10; gas_limit = 21000; value = 1 }

abbrev better_tx : Tx
better_tx = record { nonce = 8; gas_price = 22; gas_limit = 30000; value = 0 }

run-run_list_example :
    run
      (put_op third_tx
        ∷ put_op first_tx
        ∷ flatten_op
        ∷ ready_op 7
        ∷ put_op second_tx
        ∷ flatten_op
        ∷ forward_op 9
        ∷ get_op 9
        ∷ cap_op 0
        ∷ len_op
        ∷ [])
      SortedMap.new_tx_sorted_map
    ≡ done
      ∷ done
      ∷ txs_of (some first_tx ∷ some third_tx ∷ [])
      ∷ txs_of (some first_tx ∷ [])
      ∷ done
      ∷ txs_of (some second_tx ∷ some third_tx ∷ [])
      ∷ txs_of (some second_tx ∷ [])
      ∷ found (some third_tx)
      ∷ txs_of (some third_tx ∷ [])
      ∷ size 0
      ∷ []
unfolding insert_tx
run-run_list_example =
    run-run_list
      (put_op third_tx
        ∷ put_op first_tx
        ∷ flatten_op
        ∷ ready_op 7
        ∷ put_op second_tx
        ∷ flatten_op
        ∷ forward_op 9
        ∷ get_op 9
        ∷ cap_op 0
        ∷ len_op
        ∷ [])
      SortedMap.new_tx_sorted_map [] (omega arith) new_tx_sorted_map-Refines

-- The three of them in a strict list, put there out of order.
abbrev test_list : TxList
test_list = record {
  strict = true;
  txs =
      SortedMap.put second_tx
        (SortedMap.put first_tx (SortedMap.put third_tx SortedMap.new_tx_sorted_map));
  costcap = 600000;
  gascap = 30000;
}

abbrev three_txs : List Tx
three_txs = first_tx ∷ second_tx ∷ third_tx ∷ []

three_txs-Refines : Refines test_list.txs three_txs
unfolding insert_tx
three_txs-Refines =
    put-Refines
      (put-Refines (put-Refines new_tx_sorted_map-Refines third_tx (omega arith)) first_tx
        (omega arith))
      second_tx (omega arith)

three_txs-Lists : Lists test_list three_txs
unfolding cost
three_txs-Lists = record { refines = three_txs-Refines; within = omega arith }

-- The second costs more than the limit, so the third goes too.
filter-Filters_example :
    Filters true (exceeds 500000 30000) three_txs (TxList.filter 500000 30000 test_list)
filter-Filters_example = filter-Filters 500000 30000 test_list three_txs three_txs-Lists

add-Adds_example : Adds 10 better_tx test_list three_txs (TxList.add better_tx 10 test_list)
add-Adds_example =
    add-Adds 10 better_tx test_list three_txs (omega arith) (omega arith) three_txs-Lists

-- One more than the old price of 20 is enough.
abbrev dearer_tx : Tx
dearer_tx = record { nonce = 8; gas_price = 21; gas_limit = 30000; value = 0 }

add-wrapped_bump_example :
    TxList.add dearer_tx (2 ^ 63) test_list
    ≡ (true, some second_tx, TxList.overwrite dearer_tx test_list)
unfolding SortedMap.get SortedMap.put
add-wrapped_bump_example =
    add-wrapped_bump (2 ^ 63) dearer_tx second_tx test_list (omega arith) (omega arith) refl
      (omega arith)

take_all-IsGapless_example :
    IsGapless (take_all (filtering 600000 30000 ∷ removing third_tx ∷ forwarding 8 ∷ []) test_list)
take_all-IsGapless_example =
    take_all-IsGapless (filtering 600000 30000 ∷ removing third_tx ∷ forwarding 8 ∷ []) test_list
      (record {
        is_strict = refl;
        txs = three_txs;
        lists = three_txs-Lists;
        consecutive = (refl, (refl, tt));
      })
