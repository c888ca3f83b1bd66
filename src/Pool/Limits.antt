-- ===== src/Pool/Limits.antt =====
-- core/txpool/list.go: Filter of a txList. The caps that the list keeps bound its transactions, so
-- that the shortcut by them leaves nothing out; in strict mode the list is cut where the first
-- transaction is over a limit.
use uranus.Prelude.{
  ℕ, ◌≤◌, ◌≡◌, refl, ◌∙◌, ap, Bool, false, not, List, [], ◌∷◌, ltb, leb, if◌then◌else◌, arith, inl,
  inr, Bool-cases, All, All-mono,
}
use uranus.Pool.SortedMap.{Tx, cost, select, insert_tx, sort_txs}
use uranus.Pool.Sorting.{Above, IsOrdered, All-select}
use uranus.Pool.Ordered.{Passes, Fails, select-Passes, select-Fails, select-IsOrdered}
use uranus.Pool.Refines.{Refines, IsUint64}
use uranus.Pool.TxList.{TxList, is_after, lowest, max_uint64}

-- The transactions before the first that passes a test, and those from it on.
abbrev pub until : (Tx → Bool) → List Tx → List Tx
until p [] = []
until p (tx ∷ txs) = let rest = until p txs in if p tx then [] else tx ∷ rest

abbrev pub since : (Tx → Bool) → List Tx → List Tx
since p [] = []
since p (tx ∷ txs) = let rest = since p txs in if p tx then tx ∷ txs else rest

-- The list stands for transactions whose cost and gas limit its caps bound.
abbrev pub IsWithin : TxList → Tx → Type 0
IsWithin l tx = (cost tx ≤ l.costcap) × (tx.gas_limit ≤ l.gascap)

pub record Lists (l : TxList) (txs : List Tx) : Type 0 where
  pub refines : Refines l.txs txs
  pub within : All (IsWithin l) txs

-- The lowest nonce does not depend on the order in which the map is walked through.
lowest-insert_tx :
    (low : ℕ) (x : Tx) (txs : List Tx)
    → lowest low (insert_tx x txs) ≡ lowest (if ltb x.nonce low then x.nonce else low) txs
unfolding lowest insert_tx
lowest-insert_tx low x [] = refl
lowest-insert_tx low x (y ∷ txs) = elim (Bool-cases (leb x.nonce y.nonce)) [
  | inl le ↦ rw le refl
  | inr gt ↦
      let swap : (if ltb x.nonce (if ltb y.nonce low then y.nonce else low)
            then x.nonce
            else (if ltb y.nonce low then y.nonce else low))
          ≡ (if ltb y.nonce (if ltb x.nonce low then x.nonce else low)
              then y.nonce
              else (if ltb x.nonce low then x.nonce else low)) =
        ground arith in
      rw (gt, lowest-insert_tx (if ltb y.nonce low then y.nonce else low) x txs)
        (ap (λ n. lowest n txs) swap)
]

pub lowest-sort_txs : (low : ℕ) (txs : List Tx) → lowest low (sort_txs txs) ≡ lowest low txs
unfolding lowest sort_txs
lowest-sort_txs low [] = refl
lowest-sort_txs low (x ∷ txs) =
    lowest-insert_tx low x (sort_txs txs)
    ∙ lowest-sort_txs (if ltb x.nonce low then x.nonce else low) txs

lowest-Above : (n : ℕ) (txs : List Tx) → All (Above n) txs → lowest n txs ≡ n
unfolding lowest
lowest-Above n [] a = refl
lowest-Above n (x ∷ txs) a =
    let ge : ltb x.nonce n ≡ false = ground (arith, a.0) in rw ge (lowest-Above n txs a.1)

lowest-le : (n low : ℕ) (txs : List Tx) → n ≤ low → All (Above n) txs → n ≤ lowest low txs
unfolding lowest
lowest-le n low [] le a = le
lowest-le n low (x ∷ txs) le a =
    lowest-le n (if ltb x.nonce low then x.nonce else low) txs (ground (arith, a.0)) a.1

-- In order, the first is the lowest.
lowest-first :
    (x : Tx) (txs : List Tx)
    → IsUint64 x
    → IsOrdered (x ∷ txs)
    → lowest max_uint64 (x ∷ txs) ≡ x.nonce
unfolding lowest
lowest-first x txs b o =
    let e : (if ltb x.nonce max_uint64 then x.nonce else max_uint64) ≡ x.nonce = ground arith in
    rw e (lowest-Above x.nonce txs o.0)

-- Cutting off what comes after the first that passes.
pub cut :
    (p : Tx → Bool) (txs : List Tx)
    → All IsUint64 txs
    → IsOrdered txs
    → ((select
            (λ tx. not (is_after (lowest max_uint64 (select p txs)) tx))
            (select (λ tx. not (p tx)) txs)
          ≡ until p txs)
        × (select (is_after (lowest max_uint64 (select p txs))) (select (λ tx. not (p tx)) txs)
            ≡ select (λ tx. not (p tx)) (since p txs)))
cut p [] b o = (refl, refl)
cut p (x ∷ txs) b o = elim (Bool-cases (p x)) [
  | inl px ↦
      let taken = All-select (Above x.nonce) p txs o.0 in
      let left = All-select (Above x.nonce) (λ tx. not (p tx)) txs o.0 in
      let low : lowest max_uint64 (x ∷ select p txs) ≡ x.nonce =
        lowest-first x (select p txs) b.0 (taken, select-IsOrdered p txs o.1) in
      rw px (
        rw low (
          select-Fails (λ tx. not (is_after x.nonce tx)) (select (λ tx. not (p tx)) txs)
              (All-mono (Above x.nonce) (Fails (λ tx. not (is_after x.nonce tx)))
                (select (λ tx. not (p tx)) txs) (λ t lt. ground arith) left),
          (select-Passes (is_after x.nonce) (select (λ tx. not (p tx)) txs) (
                All-mono (Above x.nonce) (Passes (is_after x.nonce)) (select (λ tx. not (p tx)) txs)
                  (λ t lt. ground arith) left))
              ∙ (rw px refl),
        ))
  | inr px ↦
      let taken = All-select (Above x.nonce) p txs o.0 in
      let low : x.nonce ≤ lowest max_uint64 (select p txs) =
        lowest-le x.nonce max_uint64 (select p txs) (omega (arith, b.0)) taken in
      let before : ltb (lowest max_uint64 (select p txs)) x.nonce ≡ false = ground arith in
      let rest = cut p txs b.1 o.1 in rw px (rw before (rw rest.0 refl, rest.1))
]
