-- ===== src/Pool/Sorting.antt =====
-- Transactions in the order of their nonces: what sorting, selecting and looking up have to do with
-- one another.
use uranus.Prelude.{
  ℕ, suc, ◌≤◌, ◌<◌, ◌≡◌, refl, sym, ◌∙◌, ap, Bool, some, List, [], ◌∷◌, map, length, leb, ◌==◌,
  if◌then◌else◌, arith, inl, inr, Bool-cases, All, All-mono,
}
use uranus.Pool.SortedMap.{Tx, get_tx, select, push_nonce, init_nonces, insert_tx, sort_txs}

abbrev pub Above : ℕ → Tx → Type 0
Above n tx = n < tx.nonce

abbrev pub AtLeast : ℕ → Tx → Type 0
AtLeast n tx = n ≤ tx.nonce

-- No two of the same nonce, in the order of the nonces.
abbrev pub IsOrdered : List Tx → Type 0
IsOrdered [] = Unit
IsOrdered (tx ∷ txs) = All (Above tx.nonce) txs × IsOrdered txs

abbrev IsSorted : List Tx → Type 0
IsSorted [] = Unit
IsSorted (tx ∷ txs) = All (AtLeast tx.nonce) txs × IsSorted txs

pub All-insert_tx :
    (P : Tx → Type 0) (x : Tx) (txs : List Tx) → P x → All P txs → All P (insert_tx x txs)
unfolding insert_tx
All-insert_tx P x [] px h = (px, tt)
All-insert_tx P x (y ∷ txs) px h = elim (Bool-cases (leb x.nonce y.nonce)) [
  | inl le ↦ rw le (px, (h.0, h.1))
  | inr gt ↦ rw gt (h.0, All-insert_tx P x txs px h.1)
]

pub All-select :
    (P : Tx → Type 0) (p : Tx → Bool) (txs : List Tx) → All P txs → All P (select p txs)
All-select P p [] h = tt
All-select P p (y ∷ txs) h = elim (Bool-cases (p y)) [
  | inl in_it ↦ rw in_it (h.0, All-select P p txs h.1)
  | inr out ↦ rw out (All-select P p txs h.1)
]

insert_tx-IsSorted : (x : Tx) (txs : List Tx) → IsSorted txs → IsSorted (insert_tx x txs)
unfolding insert_tx
insert_tx-IsSorted x [] h = (tt, tt)
insert_tx-IsSorted x (y ∷ txs) h = elim (Bool-cases (leb x.nonce y.nonce)) [
  | inl le ↦ rw le (
    (ground arith, All-mono (AtLeast y.nonce) (AtLeast x.nonce) txs (λ t a. ground arith) h.0),
    (h.0, h.1),
  )
  | inr gt ↦
      rw gt (All-insert_tx (AtLeast y.nonce) x txs (ground arith) h.0, insert_tx-IsSorted x txs h.1)
]

pub sort_txs-IsSorted : (txs : List Tx) → IsSorted (sort_txs txs)
unfolding sort_txs
sort_txs-IsSorted [] = tt
sort_txs-IsSorted (x ∷ txs) = insert_tx-IsSorted x (sort_txs txs) (sort_txs-IsSorted txs)

length-insert_tx : (x : Tx) (txs : List Tx) → length (insert_tx x txs) ≡ suc (length txs)
unfolding insert_tx
length-insert_tx x [] = refl
length-insert_tx x (y ∷ txs) = ground (arith, length-insert_tx x txs)

pub length-sort_txs : (txs : List Tx) → length (sort_txs txs) ≡ length txs
unfolding sort_txs
length-sort_txs [] = refl
length-sort_txs (x ∷ txs) = length-insert_tx x (sort_txs txs) ∙ ap suc (length-sort_txs txs)

get_tx-insert_tx :
    (n : ℕ) (x : Tx) (txs : List Tx)
    → get_tx n (insert_tx x txs) ≡ (if x.nonce == n then some x else get_tx n txs)
unfolding insert_tx
get_tx-insert_tx n x [] = refl
get_tx-insert_tx n x (y ∷ txs) = ground (arith, get_tx-insert_tx n x txs)

pub get_tx-sort_txs : (n : ℕ) (txs : List Tx) → get_tx n (sort_txs txs) ≡ get_tx n txs
unfolding sort_txs
get_tx-sort_txs n [] = refl
get_tx-sort_txs n (x ∷ txs) =
    get_tx-insert_tx n x (sort_txs txs) ∙ (rw (get_tx-sort_txs n txs) refl)

pub insert_tx-first :
    (x : Tx) (txs : List Tx) → All (AtLeast x.nonce) txs → insert_tx x txs ≡ x ∷ txs
unfolding insert_tx
insert_tx-first x [] h = refl
insert_tx-first x (y ∷ txs) h = ground arith

select-insert_tx :
    (p : Tx → Bool) (x : Tx) (txs : List Tx)
    → IsSorted txs
    → select p (insert_tx x txs) ≡ (if p x then insert_tx x (select p txs) else select p txs)
unfolding insert_tx
select-insert_tx p x [] h = refl
select-insert_tx p x (y ∷ txs) h = elim (Bool-cases (leb x.nonce y.nonce)) [
  | inl le ↦
      let below = All-mono (AtLeast y.nonce) (AtLeast x.nonce) txs (λ t a. ground arith) h.0 in
      let first =
        insert_tx-first x (select p (y ∷ txs))
          (All-select (AtLeast x.nonce) p (y ∷ txs) (ground arith, below)) in
      elim (Bool-cases (p x)) [
        | inl px ↦ rw (le, select, px) (sym first)
        | inr px ↦ rw (le, select, px) refl
      ]
  | inr gt ↦ elim (Bool-cases (p x)) [
    | inl px ↦ elim (Bool-cases (p y)) [
      | inl py ↦ rw (gt, py, select-insert_tx p x txs h.1, px, insert_tx, gt) refl
      | inr py ↦ rw (gt, py, select-insert_tx p x txs h.1, px) refl
    ]
    | inr px ↦ rw (gt, select-insert_tx p x txs h.1, px) refl
  ]
]

-- Sorting and selecting commute.
pub select-sort_txs :
    (p : Tx → Bool) (txs : List Tx) → select p (sort_txs txs) ≡ sort_txs (select p txs)
unfolding sort_txs
select-sort_txs p [] = refl
select-sort_txs p (x ∷ txs) =
    select-insert_tx p x (sort_txs txs) (sort_txs-IsSorted txs) ∙ elim (Bool-cases (p x)) [
      | inl px ↦ rw (px, select-sort_txs p txs) refl
      | inr px ↦ rw (px, select-sort_txs p txs) refl
    ]

pub map-insert_tx :
    (x : Tx) (txs : List Tx)
    → map (λ tx. tx.nonce) (insert_tx x txs) ≡ push_nonce x.nonce (map (λ tx. tx.nonce) txs)
unfolding insert_tx push_nonce
map-insert_tx x [] = refl
map-insert_tx x (y ∷ txs) = ground (arith, map-insert_tx x txs)

pub init_nonces-map :
    (txs : List Tx) → init_nonces (map (λ tx. tx.nonce) txs) ≡ map (λ tx. tx.nonce) (sort_txs txs)
unfolding init_nonces sort_txs
init_nonces-map [] = refl
init_nonces-map (x ∷ txs) =
    ap (push_nonce x.nonce) (init_nonces-map txs) ∙ sym (map-insert_tx x (sort_txs txs))
