-- ===== src/Pool/Loops.antt =====
-- core/txpool/list.go: the loops of Forward, Cap and Ready over the index of a txSortedMap.
use uranus.Prelude.{
  ℕ, suc, ◌+◌, ◌%◌, ◌^◌, ◌≡◌, refl, sym, ◌∙◌, ap, Bool, true, false, not, some, List, [], ◌∷◌, map,
  ltb, ◌==◌, if◌then◌else◌, arith, inl, inr, Bool-cases, All, All-mono,
}
use uranus.Pool.SortedMap.{
  Tx, Taken, get_tx, select, is_other, delete_tx, sort_txs, forward_loop, ready_loop,
}
use uranus.Pool.Sorting.{Above, IsOrdered, select-sort_txs, get_tx-sort_txs}
use uranus.Pool.Ordered.{Passes, Fails, select-Passes, select-Fails, delete_tx-first}
use uranus.Pool.Refines.{nonces, IsUint64}

abbrev pub is_below : ℕ → Tx → Bool
is_below threshold tx = ltb tx.nonce threshold

-- What a loop took and left: the transactions, and the items and the index of the others.
pub record Took (t : Taken) (taken left : List Tx) : Type 0 where
  pub taken_all : t.0 ≡ map some taken
  pub items_left : sort_txs t.1 ≡ left
  pub index_left : t.2 ≡ nonces left

-- The first of the list, among the items and gone from them.
get_tx-head :
    (x : Tx) (txs items : List Tx) → sort_txs items ≡ x ∷ txs → get_tx x.nonce items ≡ some x
get_tx-head x txs items e =
    let self : (x.nonce == x.nonce) ≡ true = ground arith in
    sym (get_tx-sort_txs x.nonce items) ∙ ap (get_tx x.nonce) e ∙ (rw self refl)

delete_tx-head :
    (x : Tx) (txs items : List Tx)
    → IsOrdered (x ∷ txs)
    → sort_txs items ≡ x ∷ txs
    → sort_txs (delete_tx x.nonce items) ≡ txs
delete_tx-head x txs items o e =
    sym (select-sort_txs (is_other x.nonce) items)
    ∙ ap (delete_tx x.nonce) e
    ∙ delete_tx-first x.nonce x txs refl o

-- Where the first is not below a threshold, none is.
pub select-none_below :
    (threshold : ℕ) (x : Tx) (txs : List Tx)
    → All (Above x.nonce) txs
    → ltb x.nonce threshold ≡ false
    → (select (is_below threshold) txs ≡ [])
      × (select (λ tx. not (is_below threshold tx)) txs ≡ txs)
select-none_below threshold x txs a ge = (
  select-Fails (is_below threshold) txs
      (All-mono (Above x.nonce) (Fails (is_below threshold)) txs (λ t lt. ground arith) a),
  select-Passes (λ tx. not (is_below threshold tx)) txs
      (All-mono (Above x.nonce) (Passes (λ tx. not (is_below threshold tx))) txs
        (λ t lt. ground arith) a),
)

pub forward_loop-Took :
    (threshold : ℕ) (txs items : List Tx)
    → IsOrdered txs
    → sort_txs items ≡ txs
    → Took
        (forward_loop threshold (nonces txs) items)
        (select (is_below threshold) txs)
        (select (λ tx. not (is_below threshold tx)) txs)
unfolding forward_loop
forward_loop-Took threshold [] items o e = record {
  taken_all = refl;
  items_left = e;
  index_left = refl;
}
forward_loop-Took threshold (x ∷ txs) items o e = elim (Bool-cases (ltb x.nonce threshold)) [
  | inl lt ↦
      let rest =
        forward_loop-Took threshold txs (delete_tx x.nonce items) o.1
          (delete_tx-head x txs items o e) in
      rw lt (record {
        taken_all = rw (get_tx-head x txs items e, rest.taken_all) refl;
        items_left = rest.items_left;
        index_left = rest.index_left;
      })
  | inr ge ↦
      let kept = select-none_below threshold x txs o.0 ge in
      rw (ge, kept.0, kept.1) (record { taken_all = refl; items_left = e; index_left = refl })
]

-- A run of consecutive nonces at the head of a list, and what follows it.
abbrev pub run_of : ℕ → List Tx → List Tx
run_of next [] = []
run_of next (x ∷ txs) = let rest = run_of (suc next) txs in if x.nonce == next then x ∷ rest else []

abbrev pub after_run : ℕ → List Tx → List Tx
after_run next [] = []
after_run next (x ∷ txs) =
    let rest = after_run (suc next) txs in if x.nonce == next then rest else x ∷ txs

next_wraps :
    (n : ℕ) (txs : List Tx)
    → All (Above n) txs
    → All IsUint64 txs
    → (run_of ((n + 1) % 2 ^ 64) txs ≡ run_of (suc n) txs)
      × (after_run ((n + 1) % 2 ^ 64) txs ≡ after_run (suc n) txs)
next_wraps n [] a b = (refl, refl)
next_wraps n (x ∷ txs) a b =
    let e : (n + 1) % 2 ^ 64 ≡ suc n = omega (arith, a.0, b.0) in (rw e refl, rw e refl)

pub ready_loop-Took :
    (next : ℕ) (txs items : List Tx)
    → IsOrdered txs
    → All IsUint64 txs
    → sort_txs items ≡ txs
    → Took (ready_loop next (nonces txs) items) (run_of next txs) (after_run next txs)
unfolding ready_loop
ready_loop-Took next [] items o b e = record { taken_all = refl; items_left = e; index_left = refl }
ready_loop-Took next (x ∷ txs) items o b e = elim (Bool-cases (x.nonce == next)) [
  | inl eq ↦
      let same : next ≡ x.nonce = ground arith in
      let rest =
        ready_loop-Took ((x.nonce + 1) % 2 ^ 64) txs (delete_tx x.nonce items) o.1 b.1
          (delete_tx-head x txs items o e) in
      let wraps = next_wraps x.nonce txs o.0 b.1 in
      rw eq (
        rw same (record {
          taken_all = rw (get_tx-head x txs items e, rest.taken_all, wraps.0) refl;
          items_left = rest.items_left ∙ wraps.1;
          index_left = rest.index_left ∙ ap nonces wraps.1;
        }))
  | inr ne ↦ rw ne (record { taken_all = refl; items_left = e; index_left = refl })
]
