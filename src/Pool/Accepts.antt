-- ===== src/Pool/Accepts.antt =====
-- core/txpool/list.go: Add of a txList.
use uranus.Prelude.{
  ℕ, ◌+◌, ◌*◌, ◌-◌, ◌/◌, ◌%◌, ◌^◌, ◌<◌, ◌≤◌, ◌≡◌, refl, sym, subst, Bool, true, false, not, ◌&&◌,
  Option, none, some, List, ltb, leb, if◌then◌else◌, arith, inl, inr, Bool-cases, Option-cases,
  All-mono,
}
use uranus.Pool.SortedMap
use uranus.Pool.SortedMap.{Tx, SortedMap, cost, get_tx, is_other, delete_tx, insert_tx}
use uranus.Pool.Sorting.{All-insert_tx, All-select}
use uranus.Pool.Refines.{IsUint64, get-Refines, put-Refines}
use uranus.Pool.TxList.{TxList, bump_percent, is_below, is_better, overwrite, add}
use uranus.Pool.Limits.{IsWithin, Lists}

-- A transaction is taken where its nonce is free, or where it pays more than the one that it replaces,
-- and as much as the bump asks for.
abbrev pub outbids : ℕ → Tx → Option Tx → Bool
outbids price_bump tx none = true
outbids price_bump tx (some old) =
    ltb old.gas_price tx.gas_price && leb (old.gas_price * (100 + price_bump) / 100) tx.gas_price

overwrite-Lists :
    (tx : Tx) (l : TxList) (txs : List Tx)
    → IsUint64 tx
    → Lists l txs
    → Lists (overwrite tx l) (insert_tx tx (delete_tx tx.nonce txs))
unfolding overwrite
overwrite-Lists tx l txs b h = record {
  refines = put-Refines h.refines tx b;
  within = All-insert_tx (IsWithin (overwrite tx l)) tx (delete_tx tx.nonce txs) (ground arith) (
      All-select (IsWithin (overwrite tx l)) (is_other tx.nonce) txs
        (All-mono (IsWithin l) (IsWithin (overwrite tx l)) txs (λ t w. ground arith) h.within));
}

pub record Adds (price_bump : ℕ) (tx : Tx) (l : TxList) (txs : List Tx)
    (r : Bool × Option Tx × TxList) : Type 0 where
  pub accepted : r.0 ≡ outbids price_bump tx (get_tx tx.nonce txs)
  pub replaced : r.1 ≡ (if r.0 then get_tx tx.nonce txs else none)
  pub listed : Lists r.2 (if r.0 then insert_tx tx (delete_tx tx.nonce txs) else txs)

is_better-outbids :
    (price_bump : ℕ) (tx old : Tx)
    → price_bump < 2 ^ 63 - 100
    → outbids price_bump tx (some old) ≡ not (is_better old tx price_bump)
unfolding is_better bump_percent is_below
is_better-outbids price_bump tx old small =
    let percent : (100 + price_bump) % 2 ^ 64 ≡ 100 + price_bump = omega arith in
    let positive : ltb (100 + price_bump) (2 ^ 63) ≡ true = ground arith in
    rw (is_better, bump_percent, percent, positive) (ground arith)

-- With a price bump below 2^63 - 100, Add to a txList whose caps bound its transactions accepts a
-- transaction with a uint64 nonce exactly when its nonce is free, or when its price is above that
-- of the transaction there and at least that price raised by the bump, rounded down; it then
-- replaces it and returns it, and otherwise the list is as before; the caps bound the transactions
-- again.
pub add-Adds :
    (price_bump : ℕ) (tx : Tx) (l : TxList) (txs : List Tx)
    → price_bump < 2 ^ 63 - 100
    → IsUint64 tx
    → Lists l txs
    → Adds price_bump tx l txs (add tx price_bump l)
unfolding add
add-Adds price_bump tx l txs small b h =
    let there : SortedMap.get tx.nonce l.txs ≡ get_tx tx.nonce txs =
      get-Refines h.refines tx.nonce in
    elim (Option-cases (get_tx tx.nonce txs)) [
      | inl free ↦
          let e : add tx price_bump l ≡ (true, none, overwrite tx l) = rw (add, there, free) refl in
          subst (Adds price_bump tx l txs) (sym e) (record {
            accepted = rw free refl;
            replaced = sym free;
            listed = overwrite-Lists tx l txs b h;
          })
      | inr (old, taken) ↦ elim (Bool-cases (is_better old tx price_bump)) [
        | inl better ↦
            let e : add tx price_bump l ≡ (false, none, l) = rw (add, there, taken, better) refl in
            subst (Adds price_bump tx l txs) (sym e) (record {
              accepted = rw taken (ground (arith, is_better-outbids price_bump tx old small));
              replaced = refl;
              listed = h;
            })
        | inr beaten ↦
            let e : add tx price_bump l ≡ (true, some old, overwrite tx l) =
              rw (add, there, taken, beaten) refl in
            subst (Adds price_bump tx l txs) (sym e) (record {
              accepted = rw taken (ground (arith, is_better-outbids price_bump tx old small));
              replaced = sym taken;
              listed = overwrite-Lists tx l txs b h;
            })
      ]
    ]

scaled : (price percent : ℕ) → percent ≤ 100 → price * percent ≤ price * 100
scaled price percent h = grind arith

-- Where the sum has wrapped around, the bump asks for nothing.
is_below-wrapped :
    (price_bump old_price price : ℕ)
    → 2 ^ 63 - 100 ≤ price_bump
    → price_bump < 2 ^ 64
    → old_price < price
    → is_below (bump_percent price_bump) old_price price ≡ false
unfolding bump_percent is_below
is_below-wrapped price_bump old_price price low high higher =
    elim (Bool-cases (ltb ((100 + price_bump) % 2 ^ 64) (2 ^ 63))) [
      | inl e ↦
          let percent = (100 + price_bump) % 2 ^ 64 in
          let small : percent ≤ 100 = ground arith in
          rw e (ground (arith, scaled old_price percent small))
      | inr e ↦ rw e refl
    ]

-- With a price bump from 2^63 - 100 to the largest uint64, the percentage wraps around and Add
-- replaces a transaction by any of the same nonce with a higher price, however little it is
-- higher.
pub add-wrapped_bump :
    (price_bump : ℕ) (tx old : Tx) (l : TxList)
    → 2 ^ 63 - 100 ≤ price_bump
    → price_bump < 2 ^ 64
    → SortedMap.get tx.nonce l.txs ≡ some old
    → old.gas_price < tx.gas_price
    → add tx price_bump l ≡ (true, some old, overwrite tx l)
unfolding add is_better
add-wrapped_bump price_bump tx old l low high there higher =
    let above : leb tx.gas_price old.gas_price ≡ false = ground arith in
    rw
      (
        add,
        there,
        is_better,
        above,
        is_below-wrapped price_bump old.gas_price tx.gas_price low high higher,
      )
      refl
