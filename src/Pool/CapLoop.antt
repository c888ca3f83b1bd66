-- ===== src/Pool/CapLoop.antt =====
-- core/txpool/list.go: the loop of Cap, which takes transactions from the end.
use mathlib.Core.List.{reverse, append_assoc, append-nil, reverse-cons}
use uranus.Prelude.{
  ℕ, ◌+◌, ◌-◌, ◌≤◌, ◌<◌, ◌≡◌, refl, sym, ◌∙◌, ap, subst, false, some, List, [], ◌∷◌, ◌++◌, map,
  length, take, drop, get_or, ◌==◌, arith, All, All-append_left, length-append, take-append-drop,
  length-take,
}
use uranus.Pool.SortedMap.{Tx, get_tx, is_other, delete_tx, sort_txs, cap_loop}
use uranus.Pool.Sorting.{Above, IsOrdered, select-sort_txs, get_tx-sort_txs}
use uranus.Pool.Ordered.{delete_tx-first}
use uranus.Pool.Refines.{nonces}

-- The second list, from its end, after the first.
abbrev unwind : List Tx → List Tx → List Tx
unwind a [] = a
unwind a (x ∷ c) = unwind a c ++ x ∷ []

unwind-append : (a c : List Tx) (b : Tx) → unwind a (c ++ b ∷ []) ≡ unwind (a ++ b ∷ []) c
unwind-append a [] b = refl
unwind-append a (x ∷ c) b = rw (unwind-append a c b) refl

unwind-reverse : (a b : List Tx) → unwind a (reverse b) ≡ a ++ b
unwind-reverse a [] = sym (append-nil a)
unwind-reverse a (x ∷ b) =
    rw (reverse-cons x b, unwind-append a (reverse b) x, unwind-reverse (a ++ x ∷ []) b)
      (append_assoc a (x ∷ []) b)

length-unwind : (a c : List Tx) → length (unwind a c) ≡ length a + length c
length-unwind a [] = omega arith
length-unwind a (x ∷ c) = omega (arith, length-unwind a c, length-append (unwind a c) (x ∷ []))

pub IsOrdered-append_left : (a b : List Tx) → IsOrdered (a ++ b) → IsOrdered a
IsOrdered-append_left [] b o = tt
IsOrdered-append_left (x ∷ a) b o =
    (All-append_left (Above x.nonce) a b o.0, IsOrdered-append_left a b o.1)

All-last : (n : ℕ) (a : List Tx) (x : Tx) → All (Above n) (a ++ x ∷ []) → n < x.nonce
All-last n [] x h = h.0
All-last n (y ∷ a) x h = All-last n a x h.1

delete_tx-last :
    (a : List Tx) (x : Tx) → IsOrdered (a ++ x ∷ []) → delete_tx x.nonce (a ++ x ∷ []) ≡ a
delete_tx-last [] x o = delete_tx-first x.nonce x [] refl o
delete_tx-last (y ∷ a) x o =
    let lt : y.nonce < x.nonce = All-last y.nonce a x o.0 in
    let other : (y.nonce == x.nonce) ≡ false = ground arith in
    rw (other, delete_tx-last a x o.1) refl

get_tx-last :
    (a : List Tx) (x : Tx) → IsOrdered (a ++ x ∷ []) → get_tx x.nonce (a ++ x ∷ []) ≡ some x
get_tx-last [] x o = ground arith
get_tx-last (y ∷ a) x o =
    let lt : y.nonce < x.nonce = All-last y.nonce a x o.0 in ground (arith, get_tx-last a x o.1)

get_or-nonces : (a d : List Tx) (x : Tx) → get_or (nonces (a ++ x ∷ d)) (length a) 0 ≡ x.nonce
get_or-nonces [] d x = refl
get_or-nonces (y ∷ a) d x = get_or-nonces a d x

-- The loop over an index that may go on after what is left of the items.
cap_loop-unwind :
    (a c d items : List Tx)
    → IsOrdered (unwind a c)
    → sort_txs items ≡ unwind a c
    → ((cap_loop (length c) (length a) (nonces (unwind a c ++ d)) items).0 ≡ map some c)
      × (sort_txs (cap_loop (length c) (length a) (nonces (unwind a c ++ d)) items).1 ≡ a)
unfolding cap_loop
cap_loop-unwind a [] d items o e = (refl, e)
cap_loop-unwind a (x ∷ c) d items o e =
    let index = nonces (unwind a (x ∷ c) ++ d) in
    let longer : index ≡ nonces (unwind a c ++ x ∷ d) =
      ap nonces (append_assoc (unwind a c) (x ∷ []) d) in
    let top : get_or (nonces (unwind a c ++ x ∷ d)) (length a + length c) 0 ≡ x.nonce =
      rw (← length-unwind a c) (get_or-nonces (unwind a c) d x) in
    let found : get_tx x.nonce items ≡ some x =
      sym (get_tx-sort_txs x.nonce items) ∙ ap (get_tx x.nonce) e ∙ get_tx-last (unwind a c) x o in
    let left : sort_txs (delete_tx x.nonce items) ≡ unwind a c =
      sym (select-sort_txs (is_other x.nonce) items)
      ∙ ap (delete_tx x.nonce) e
      ∙ delete_tx-last (unwind a c) x o in
    let rest =
      cap_loop-unwind a c (x ∷ d) (delete_tx x.nonce items)
        (IsOrdered-append_left (unwind a c) (x ∷ []) o) left in
    rw longer (rw (top, found, rest.0) refl, rw (cap_loop, top) rest.1)

-- The loop of `cap` on an ordered list drops what stands after the threshold, the last first.
pub cap_loop_lem :
    (threshold : ℕ) (txs items : List Tx)
    → IsOrdered txs
    → sort_txs items ≡ txs
    → threshold ≤ length txs
    → ((cap_loop (length txs - threshold) threshold (nonces txs) items).0
        ≡ map some (reverse (drop threshold txs)))
      × (sort_txs (cap_loop (length txs - threshold) threshold (nonces txs) items).1
          ≡ take threshold txs)
cap_loop_lem threshold txs items o e le =
    let a = take threshold txs in
    let c = reverse (drop threshold txs) in
    let whole : unwind a c ≡ txs =
      unwind-reverse a (drop threshold txs) ∙ take-append-drop threshold txs in
    let size : length a ≡ threshold = omega (arith, length-take threshold txs) in
    let more : length c ≡ length txs - threshold =
      omega (arith, ap length whole, length-unwind a c) in
    let got = cap_loop-unwind a c [] items (subst IsOrdered (sym whole) o) (e ∙ sym whole) in
    let index : nonces (unwind a c ++ []) ≡ nonces txs =
      ap nonces (append-nil (unwind a c) ∙ whole) in
    subst (λ r. (r.0 ≡ map some c) × (sort_txs r.1 ≡ a))
      (λ i. cap_loop (more i) (size i) (index i) items) got
