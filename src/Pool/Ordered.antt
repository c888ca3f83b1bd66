-- ===== src/Pool/Ordered.antt =====
-- Lists of transactions in strict order of their nonces: what the pool's operations make of them.
use uranus.Prelude.{
  ℕ, ◌<◌, ◌≡◌, refl, Bool, true, false, none, some, List, [], ◌∷◌, map, leb, ◌==◌, arith, inl, inr,
  Bool-cases, All, All-mono, ==_iff,
}
use uranus.Pool.SortedMap.{
  Tx, get_tx, select, is_other, delete_tx, push_nonce, remove_nonce, insert_tx,
}
use uranus.Pool.Sorting.{
  Above, AtLeast, IsOrdered, All-insert_tx, All-select, map-insert_tx, insert_tx-first,
}

abbrev pub Passes : (Tx → Bool) → Tx → Type 0
Passes p tx = p tx ≡ true

abbrev pub Fails : (Tx → Bool) → Tx → Type 0
Fails p tx = p tx ≡ false

pub select-Passes : (p : Tx → Bool) (txs : List Tx) → All (Passes p) txs → select p txs ≡ txs
select-Passes p [] h = refl
select-Passes p (x ∷ txs) h = rw (h.0, select-Passes p txs h.1) refl

pub select-Fails : (p : Tx → Bool) (txs : List Tx) → All (Fails p) txs → select p txs ≡ []
select-Fails p [] h = refl
select-Fails p (x ∷ txs) h = rw (h.0, select-Fails p txs h.1) refl

pub Passes-select : (p : Tx → Bool) (txs : List Tx) → All (Passes p) (select p txs)
Passes-select p [] = tt
Passes-select p (x ∷ txs) = elim (Bool-cases (p x)) [
  | inl px ↦ rw px (px, Passes-select p txs)
  | inr px ↦ rw px (Passes-select p txs)
]

pub select-IsOrdered : (p : Tx → Bool) (txs : List Tx) → IsOrdered txs → IsOrdered (select p txs)
select-IsOrdered p [] h = tt
select-IsOrdered p (x ∷ txs) h = elim (Bool-cases (p x)) [
  | inl px ↦ rw px (All-select (Above x.nonce) p txs h.0, select-IsOrdered p txs h.1)
  | inr px ↦ rw px (select-IsOrdered p txs h.1)
]

-- Of an ordered list, the deletion of the first takes the first only.
pub delete_tx-first :
    (n : ℕ) (x : Tx) (txs : List Tx)
    → x.nonce ≡ n
    → IsOrdered (x ∷ txs)
    → delete_tx n (x ∷ txs) ≡ txs
delete_tx-first n x txs e h =
    let self : (x.nonce == n) ≡ true = ground arith in
    rw self (
      select-Passes (is_other n) txs
        (All-mono (Above x.nonce) (Passes (is_other n)) txs (λ t a. ground arith) h.0))

pub insert_tx-IsOrdered :
    (x : Tx) (txs : List Tx)
    → All (Passes (is_other x.nonce)) txs
    → IsOrdered txs
    → IsOrdered (insert_tx x txs)
unfolding insert_tx
insert_tx-IsOrdered x [] o h = (tt, tt)
insert_tx-IsOrdered x (y ∷ txs) o h = elim (Bool-cases (leb x.nonce y.nonce)) [
  | inl le ↦
      let lt : x.nonce < y.nonce = ground (arith, o.0) in
      rw le
        ((lt, All-mono (Above y.nonce) (Above x.nonce) txs (λ t a. ground arith) h.0), (h.0, h.1))
  | inr gt ↦
      rw gt
        (All-insert_tx (Above y.nonce) x txs (ground arith) h.0, insert_tx-IsOrdered x txs o.1 h.1)
]

pub get_tx-none : (n : ℕ) (txs : List Tx) → get_tx n txs ≡ none → All (Passes (is_other n)) txs
get_tx-none n [] h = tt
get_tx-none n (x ∷ txs) h = elim (Bool-cases (x.nonce == n)) [
  | inl eq ↦ let no : some x ≡ none = rw eq at h in absurd (cc)
  | inr ne ↦ (rw ne refl, get_tx-none n txs (rw ne at h))
]

pub get_tx-Above :
    (m n : ℕ) (txs : List Tx) (t : Tx) → All (Above m) txs → get_tx n txs ≡ some t → m < n
get_tx-Above m n [] t h e = absurd (cc)
get_tx-Above m n (x ∷ txs) t h e = elim (Bool-cases (x.nonce == n)) [
  | inl eq ↦ ground (arith, h.0)
  | inr ne ↦ get_tx-Above m n txs t h.1 (rw ne at e)
]

-- The index where a transaction replaces one of its nonce.
pub replaced-index :
    (x : Tx) (txs : List Tx) (t : Tx)
    → IsOrdered txs
    → get_tx x.nonce txs ≡ some t
    → map (λ tx. tx.nonce) (insert_tx x (delete_tx x.nonce txs)) ≡ map (λ tx. tx.nonce) txs
unfolding insert_tx
replaced-index x [] t h e = absurd (cc)
replaced-index x (y ∷ txs) t h e = elim (Bool-cases (y.nonce == x.nonce)) [
  | inl eq ↦
      let same : y.nonce ≡ x.nonce = (==_iff _ _).0 eq in
      let gone : delete_tx x.nonce (y ∷ txs) ≡ txs = delete_tx-first x.nonce y txs same h in
      let first : insert_tx x txs ≡ x ∷ txs =
        insert_tx-first x txs
          (All-mono (Above y.nonce) (AtLeast x.nonce) txs (λ s a. ground arith) h.0) in
      rw (gone, first) (ground arith)
  | inr ne ↦
      let below : get_tx x.nonce txs ≡ some t = rw ne at e in
      let lt : y.nonce < x.nonce = get_tx-Above y.nonce x.nonce txs t h.0 below in
      let gt : leb x.nonce y.nonce ≡ false = ground arith in
      rw (ne, insert_tx, gt, replaced-index x txs t h.1 below) refl
]

-- The index where a transaction of a new nonce comes in.
pub pushed-index :
    (x : Tx) (txs : List Tx)
    → get_tx x.nonce txs ≡ none
    → map (λ tx. tx.nonce) (insert_tx x (delete_tx x.nonce txs))
      ≡ push_nonce x.nonce (map (λ tx. tx.nonce) txs)
pushed-index x txs e =
    rw (select-Passes (is_other x.nonce) txs (get_tx-none x.nonce txs e)) (map-insert_tx x txs)

pub remove_nonce-map :
    (n : ℕ) (txs : List Tx)
    → IsOrdered txs
    → remove_nonce n (map (λ tx. tx.nonce) txs) ≡ map (λ tx. tx.nonce) (delete_tx n txs)
unfolding remove_nonce
remove_nonce-map n [] h = refl
remove_nonce-map n (x ∷ txs) h = elim (Bool-cases (x.nonce == n)) [
  | inl eq ↦
      let same : x.nonce ≡ n = (==_iff _ _).0 eq in
      let gone : delete_tx n (x ∷ txs) ≡ txs = delete_tx-first n x txs same h in
      rw gone (rw eq refl)
  | inr ne ↦ rw (ne, remove_nonce-map n txs h.1) refl
]
