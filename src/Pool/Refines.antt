-- ===== src/Pool/Refines.antt =====
-- core/txpool/list.go: txSortedMap as a list in the order of the nonces. The operations on such a list
-- are the specification; a map that stands for a list answers as the list does.
use uranus.Prelude.{
  ℕ, ◌^◌, ◌<◌, ◌≡◌, refl, sym, ◌∙◌, ap, Bool, true, false, not, none, some, List, [], ◌∷◌, map,
  length, ltb, arith, inl, inr, ◌⊎◌, Bool-cases, Option-cases, All,
}
use uranus.Pool.SortedMap
use uranus.Pool.SortedMap.{
  Tx, SortedMap, Taken, get_tx, select, is_other, delete_tx, push_nonce, remove_nonce, insert_tx,
  sort_txs, forward_loop, cap_loop, ready_loop, ready_from, init_nonces,
}
use uranus.Pool.Sorting.{
  IsOrdered, All-insert_tx, All-select, select-sort_txs, get_tx-sort_txs, length-sort_txs,
  init_nonces-map,
}
use uranus.Pool.Ordered.{
  select-Passes, Passes-select, select-IsOrdered, insert_tx-IsOrdered, get_tx-none, replaced-index,
  pushed-index, remove_nonce-map,
}

abbrev pub nonces : List Tx → List ℕ
nonces txs = map (λ tx. tx.nonce) txs

abbrev pub IsUint64 : Tx → Type 0
IsUint64 tx = tx.nonce < 2 ^ 64

-- The map stands for the list: its items are the list's, in any order; its index has their nonces in
-- order, and a cache, where there is one, is the list.
pub record Refines (m : SortedMap) (txs : List Tx) : Type 0 where
  pub ordered : IsOrdered txs
  pub bounded : All IsUint64 txs
  pub sorted : sort_txs m.items ≡ txs
  pub indexed : m.index ≡ nonces txs
  pub cached : (m.cache ≡ none) ⊎ (m.cache ≡ some txs)

pub new_tx_sorted_map-Refines : Refines SortedMap.new_tx_sorted_map []
unfolding sort_txs
new_tx_sorted_map-Refines = record {
  ordered = tt;
  bounded = tt;
  sorted = refl;
  indexed = refl;
  cached = inl refl;
}

pub length-zero : (txs : List Tx) → ltb 0 (length txs) ≡ false → txs ≡ []
length-zero [] h = refl
length-zero (x ∷ txs) h = absurd (ground arith)

select-rest :
    (p : Tx → Bool) (txs : List Tx) → select p txs ≡ [] → select (λ tx. not (p tx)) txs ≡ txs
select-rest p [] h = refl
select-rest p (x ∷ txs) h = elim (Bool-cases (p x)) [
  | inl px ↦ let no : x ∷ select p txs ≡ [] = rw px at h in absurd (cc)
  | inr px ↦ rw (px, select-rest p txs (rw px at h)) refl
]

module _ {m : SortedMap} {txs : List Tx} (r : Refines m txs) where
  pub get-Refines : (n : ℕ) → SortedMap.get n m ≡ get_tx n txs
  unfolding SortedMap.get
  get-Refines n = sym (get_tx-sort_txs n m.items) ∙ ap (get_tx n) r.sorted

  pub len-Refines : SortedMap.tx_count m ≡ length txs
  unfolding SortedMap.tx_count
  len-Refines = sym (length-sort_txs m.items) ∙ ap length r.sorted

  pub sort-select : (p : Tx → Bool) → sort_txs (select p m.items) ≡ select p txs
  sort-select p = sym (select-sort_txs p m.items) ∙ ap (select p) r.sorted

  pub flatten-Refines : (SortedMap.flatten m).0 ≡ txs
  unfolding SortedMap.flatten
  flatten-Refines = elim r.cached [ inl e ↦ rw e r.sorted | inr e ↦ rw e refl ]

  pub flatten_keeps-Refines : Refines (SortedMap.flatten m).1 txs
  unfolding SortedMap.flatten
  flatten_keeps-Refines = elim r.cached [
    | inl e ↦ rw e (record {
      ordered = r.ordered;
      bounded = r.bounded;
      sorted = r.sorted;
      indexed = r.indexed;
      cached = inr (rw r.sorted refl);
    })
    | inr e ↦ rw (SortedMap.flatten, e) r
  ]

  pub put-Refines :
      (tx : Tx) → IsUint64 tx → Refines (SortedMap.put tx m) (insert_tx tx (delete_tx tx.nonce txs))
  unfolding SortedMap.put sort_txs
  put-Refines tx lt = record {
    ordered =
        insert_tx-IsOrdered tx (delete_tx tx.nonce txs) (Passes-select (is_other tx.nonce) txs)
          (select-IsOrdered (is_other tx.nonce) txs r.ordered);
    bounded =
        All-insert_tx IsUint64 tx (delete_tx tx.nonce txs) lt
          (All-select IsUint64 (is_other tx.nonce) txs r.bounded);
    sorted = rw (sort-select (is_other tx.nonce)) refl;
    indexed =
        let same : get_tx tx.nonce m.items ≡ get_tx tx.nonce txs =
          sym (get_tx-sort_txs tx.nonce m.items) ∙ ap (get_tx tx.nonce) r.sorted in
        elim (Option-cases (get_tx tx.nonce txs)) [
          | inl e ↦ rw (SortedMap.put, same, e, pushed-index tx txs e, r.indexed) refl
          | inr (t, e) ↦
              rw (SortedMap.put, same, e, replaced-index tx txs t r.ordered e, r.indexed) refl
        ];
    cached = inl refl;
  }

  pub remove-Refines :
      (n : ℕ)
      → ((SortedMap.remove n m).0
          ≡ (elim (get_tx n txs) as (λ _. Bool) [ none ↦ false | some t ↦ true ]))
        × Refines (SortedMap.remove n m).1 (delete_tx n txs)
  unfolding SortedMap.remove
  remove-Refines n =
      let same : get_tx n m.items ≡ get_tx n txs =
        sym (get_tx-sort_txs n m.items) ∙ ap (get_tx n) r.sorted in
      elim (Option-cases (get_tx n txs)) [
        | inl e ↦
            rw (SortedMap.remove, same, e, select-Passes (is_other n) txs (get_tx-none n txs e))
              (refl, r)
        | inr (t, e) ↦
            rw (SortedMap.remove, same, e)
              (
                refl,
                record {
                  ordered = select-IsOrdered (is_other n) txs r.ordered;
                  bounded = All-select IsUint64 (is_other n) txs r.bounded;
                  sorted = sort-select (is_other n);
                  indexed = ap (remove_nonce n) r.indexed ∙ remove_nonce-map n txs r.ordered;
                  cached = inl refl;
                },
              )
      ]

  pub filter-Refines :
      (p : Tx → Bool)
      → (sort_txs (SortedMap.filter p m).0 ≡ select p txs)
        × Refines (SortedMap.filter p m).1 (select (λ tx. not (p tx)) txs)
  unfolding SortedMap.filter sort_txs
  filter-Refines p = (
    sort-select p,
    elim (Bool-cases (ltb 0 (length (select p m.items)))) [
      | inl found ↦
          rw (SortedMap.filter, found)
            (record {
              ordered = select-IsOrdered (λ tx. not (p tx)) txs r.ordered;
              bounded = All-select IsUint64 (λ tx. not (p tx)) txs r.bounded;
              sorted = sort-select (λ tx. not (p tx));
              indexed =
                  init_nonces-map (select (λ tx. not (p tx)) m.items)
                  ∙ ap nonces (sort-select (λ tx. not (p tx)));
              cached = inl refl;
            })
      | inr nothing_found ↦
          let gone : select p m.items ≡ [] = length-zero (select p m.items) nothing_found in
          let kept : select (λ tx. not (p tx)) m.items ≡ m.items = select-rest p m.items gone in
          let all : select (λ tx. not (p tx)) txs ≡ txs =
            select-rest p txs (sym (sort-select p) ∙ ap sort_txs gone) in
          rw (SortedMap.filter, nothing_found, kept, all) r
    ],
  )
