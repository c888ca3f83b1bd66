-- ===== src/Pool/Gapless.antt =====
-- core/txpool/list.go: a strict txList has no gap between its nonces, whatever is taken from it.
use uranus.Prelude.{
  ℕ, zero, suc, ◌<◌, ◌≡◌, refl, Bool, true, false, not, some, List, [], ◌∷◌, take, ltb, ◌==◌, arith,
  ◌⊎◌, inl, inr, Bool-cases, All-mono, ==_iff,
}
use uranus.Pool.SortedMap.{Tx, get_tx, select, delete_tx}
use uranus.Pool.Sorting.{Above, IsOrdered}
use uranus.Pool.Ordered.{Passes, Fails, select-Passes, select-Fails, delete_tx-first, get_tx-Above}
use uranus.Pool.Loops.{is_below, after_run}
use uranus.Pool.Steps.{left_txs}
use uranus.Pool.TxList.{is_after}
use uranus.Pool.Limits.{until}

abbrev pub Follows : ℕ → List Tx → Type 0
Follows n [] = Unit
Follows n (x ∷ txs) = (x.nonce ≡ suc n) × Follows x.nonce txs

-- Each nonce is the one after the last.
abbrev pub IsConsecutive : List Tx → Type 0
IsConsecutive [] = Unit
IsConsecutive (x ∷ txs) = Follows x.nonce txs

Follows-IsConsecutive : (n : ℕ) (txs : List Tx) → Follows n txs → IsConsecutive txs
Follows-IsConsecutive n [] f = tt
Follows-IsConsecutive n (x ∷ txs) f = f.1

until-Follows : (p : Tx → Bool) (n : ℕ) (txs : List Tx) → Follows n txs → Follows n (until p txs)
until-Follows p n [] f = tt
until-Follows p n (x ∷ txs) f = elim (Bool-cases (p x)) [
  | inl px ↦ rw px tt
  | inr px ↦ rw px (f.0, until-Follows p x.nonce txs f.1)
]

pub until-IsConsecutive :
    (p : Tx → Bool) (txs : List Tx) → IsConsecutive txs → IsConsecutive (until p txs)
until-IsConsecutive p [] f = tt
until-IsConsecutive p (x ∷ txs) f = elim (Bool-cases (p x)) [
  | inl px ↦ rw px tt
  | inr px ↦ rw px (until-Follows p x.nonce txs f)
]

take-Follows : (k n : ℕ) (txs : List Tx) → Follows n txs → Follows n (take k txs)
take-Follows zero n txs f = tt
take-Follows (suc k) n [] f = tt
take-Follows (suc k) n (x ∷ txs) f = (f.0, take-Follows k x.nonce txs f.1)

pub take-IsConsecutive : (k : ℕ) (txs : List Tx) → IsConsecutive txs → IsConsecutive (take k txs)
take-IsConsecutive zero txs f = tt
take-IsConsecutive (suc k) [] f = tt
take-IsConsecutive (suc k) (x ∷ txs) f = take-Follows k x.nonce txs f

-- Those that are not below a threshold come last.
pub select-IsConsecutive :
    (n : ℕ) (txs : List Tx)
    → IsOrdered txs
    → IsConsecutive txs
    → IsConsecutive (select (λ tx. not (is_below n tx)) txs)
select-IsConsecutive n [] o f = tt
select-IsConsecutive n (x ∷ txs) o f = elim (Bool-cases (ltb x.nonce n)) [
  | inl lt ↦ rw lt (select-IsConsecutive n txs o.1 (Follows-IsConsecutive x.nonce txs f))
  | inr ge ↦
      let all =
        select-Passes (λ tx. not (is_below n tx)) txs
          (All-mono (Above x.nonce) (Passes (λ tx. not (is_below n tx))) txs (λ t a. ground arith)
            o.0) in
      rw (ge, all) f
]

-- A run takes the whole of a list without gaps.
after_run-Follows : (n : ℕ) (txs : List Tx) → Follows n txs → after_run (suc n) txs ≡ []
after_run-Follows n [] f = refl
after_run-Follows n (x ∷ txs) f =
    let eq : (x.nonce == suc n) ≡ true = ground (arith, f.0) in
    rw (eq, ← f.0) (after_run-Follows x.nonce txs f.1)

pub left_txs-cases :
    (start : ℕ) (txs : List Tx)
    → IsConsecutive txs
    → (left_txs start txs ≡ txs) ⊎ (left_txs start txs ≡ [])
left_txs-cases start [] f = inl refl
left_txs-cases start (x ∷ txs) f = elim (Bool-cases (ltb start x.nonce)) [
  | inl later ↦ inl (rw later refl)
  | inr now ↦
      let self : (x.nonce == x.nonce) ≡ true = ground arith in
      inr (rw (now, self) (after_run-Follows x.nonce txs f))
]

-- Where a nonce goes from a list, what is left of it and not after it stands before it.
pub delete-until :
    (n : ℕ) (txs : List Tx) (t : Tx)
    → IsOrdered txs
    → get_tx n txs ≡ some t
    → select (λ tx. not (is_after n tx)) (delete_tx n txs) ≡ until (λ tx. tx.nonce == n) txs
delete-until n [] t o e = absurd (cc)
delete-until n (x ∷ txs) t o e = elim (Bool-cases (x.nonce == n)) [
  | inl eq ↦
      let same : x.nonce ≡ n = (==_iff _ _).0 eq in
      rw (delete_tx-first n x txs same o, eq)
        (select-Fails (λ tx. not (is_after n tx)) txs
          (All-mono (Above x.nonce) (Fails (λ tx. not (is_after n tx))) txs (λ s a. ground arith)
            o.0))
  | inr ne ↦
      let below : get_tx n txs ≡ some t = rw ne at e in
      let lt : x.nonce < n = get_tx-Above x.nonce n txs t o.0 below in
      let stays : ltb n x.nonce ≡ false = ground arith in
      rw (ne, stays, delete-until n txs t o.1 below) refl
]
