-- ===== src/Pool/Steps.antt =====
-- core/txpool/list.go: Forward, Cap and Ready of a txSortedMap, against an ordered list.
use mathlib.Core.List.{reverse, reverse-cons}
use uranus.Prelude.{
  ℕ, zero, suc, ◌-◌, ◌≤◌, ◌≡◌, refl, sym, ◌∙◌, ap, subst, not, some, List, [], ◌∷◌, ◌++◌, map,
  length, take, drop, ltb, leb, ◌==◌, if◌then◌else◌, arith, inl, inr, Bool-cases, All,
  All-append_left, length-map, take-append-drop, length-drop, length-append, All-append_right,
}
use uranus.Pool.SortedMap
use uranus.Pool.SortedMap.{
  Tx, SortedMap, get_tx, select, delete_tx, insert_tx, sort_txs, forward_loop, cap_loop, ready_loop,
  ready_from,
}
use uranus.Pool.Sorting.{IsOrdered, All-select, length-sort_txs}
use uranus.Pool.Ordered.{select-IsOrdered}
use uranus.Pool.Refines.{Refines, nonces, IsUint64}
use uranus.Pool.Loops.{
  is_below, Took, forward_loop-Took, run_of, after_run, ready_loop-Took, select-none_below,
}
use uranus.Pool.CapLoop.{cap_loop_lem, IsOrdered-append_left}

-- A cache that loses its front with the list.
drop-below :
    (threshold : ℕ) (txs : List Tx)
    → IsOrdered txs
    → drop (length (select (is_below threshold) txs)) txs
      ≡ select (λ tx. not (is_below threshold tx)) txs
drop-below threshold [] o = refl
drop-below threshold (x ∷ txs) o = elim (Bool-cases (ltb x.nonce threshold)) [
  | inl lt ↦ rw lt (drop-below threshold txs o.1)
  | inr ge ↦ let kept = select-none_below threshold x txs o.0 ge in rw (ge, kept.0, kept.1) refl
]

take-all : (n : ℕ) (txs : List Tx) → length txs ≤ n → take n txs ≡ txs
take-all zero [] h = refl
take-all zero (x ∷ txs) h = absurd (omega arith)
take-all (suc n) [] h = refl
take-all (suc n) (x ∷ txs) h = rw (take-all n txs (omega arith)) refl

drop-all : (n : ℕ) (txs : List Tx) → length txs ≤ n → drop n txs ≡ []
drop-all zero [] h = refl
drop-all zero (x ∷ txs) h = absurd (omega arith)
drop-all (suc n) [] h = refl
drop-all (suc n) (x ∷ txs) h = drop-all n txs (omega arith)

length-reverse : (txs : List Tx) → length (reverse txs) ≡ length txs
length-reverse [] = refl
length-reverse (x ∷ txs) =
    rw (reverse-cons x txs)
      (omega (arith, length-append (reverse txs) (x ∷ []), length-reverse txs))

take-nonces : (n : ℕ) (txs : List Tx) → take n (nonces txs) ≡ nonces (take n txs)
take-nonces zero txs = refl
take-nonces (suc n) [] = refl
take-nonces (suc n) (x ∷ txs) = rw (take-nonces n txs) refl

-- A run ends, and what follows it is the rest of the list.
run_of-append-after_run : (next : ℕ) (txs : List Tx) → run_of next txs ++ after_run next txs ≡ txs
run_of-append-after_run next [] = refl
run_of-append-after_run next (x ∷ txs) = elim (Bool-cases (x.nonce == next)) [
  | inl eq ↦ rw (eq, run_of-append-after_run (suc next) txs) refl
  | inr ne ↦ rw ne refl
]

after_run-IsOrdered : (next : ℕ) (txs : List Tx) → IsOrdered txs → IsOrdered (after_run next txs)
after_run-IsOrdered next [] o = tt
after_run-IsOrdered next (x ∷ txs) o = elim (Bool-cases (x.nonce == next)) [
  | inl eq ↦ rw eq (after_run-IsOrdered (suc next) txs o.1)
  | inr ne ↦ rw ne o
]

-- What `ready` does to a list: from its first nonce on, unless that is above the start.
abbrev pub ready_txs : ℕ → List Tx → List Tx
ready_txs start [] = []
ready_txs start (x ∷ txs) = if ltb start x.nonce then [] else run_of x.nonce (x ∷ txs)

abbrev pub left_txs : ℕ → List Tx → List Tx
left_txs start [] = []
left_txs start (x ∷ txs) = if ltb start x.nonce then x ∷ txs else after_run x.nonce (x ∷ txs)

module _ {m : SortedMap} {txs : List Tx} (r : Refines m txs) where
  pub forward-Refines :
      (threshold : ℕ)
      → ((SortedMap.forward threshold m).0 ≡ map some (select (is_below threshold) txs))
        × Refines (SortedMap.forward threshold m).1 (select (λ tx. not (is_below threshold tx)) txs)
  unfolding SortedMap.forward
  forward-Refines threshold =
      let took : Took (forward_loop threshold m.index m.items) (select (is_below threshold) txs)
          (select (λ tx. not (is_below threshold tx)) txs) =
        rw r.indexed (forward_loop-Took threshold txs m.items r.ordered r.sorted) in
      (
        took.taken_all,
        record {
          ordered = select-IsOrdered (λ tx. not (is_below threshold tx)) txs r.ordered;
          bounded = All-select IsUint64 (λ tx. not (is_below threshold tx)) txs r.bounded;
          sorted = took.items_left;
          indexed = took.index_left;
          cached = elim r.cached [
            | inl e ↦ inl (rw (SortedMap.forward, e) refl)
            | inr e ↦ inr (
                rw
                  (
                    SortedMap.forward,
                    e,
                    took.taken_all,
                    length-map (select (is_below threshold) txs) some,
                  )
                  (ap some (drop-below threshold txs r.ordered)))
          ];
        },
      )

  pub cap-Refines :
      (threshold : ℕ)
      → ((SortedMap.cap threshold m).0 ≡ map some (reverse (drop threshold txs)))
        × Refines (SortedMap.cap threshold m).1 (take threshold txs)
  unfolding SortedMap.cap
  cap-Refines threshold =
      let size : length m.items ≡ length txs = sym (length-sort_txs m.items) ∙ ap length r.sorted in
      elim (Bool-cases (leb (length txs) threshold)) [
        | inl few ↦
            let le : length txs ≤ threshold = ground arith in
            rw (SortedMap.cap, size, few, drop-all threshold txs le, take-all threshold txs le)
              (refl, r)
        | inr many ↦
            let le : threshold ≤ length txs = ground arith in
            let got = cap_loop_lem threshold txs m.items r.ordered r.sorted le in
            let whole : take threshold txs ++ drop threshold txs ≡ txs =
              take-append-drop threshold txs in
            let count : length (map some (reverse (drop threshold txs))) ≡ length txs - threshold =
              length-map (reverse (drop threshold txs)) some
              ∙ length-reverse (drop threshold txs)
              ∙ length-drop threshold txs in
            let keep : length txs - (length txs - threshold) ≡ threshold = omega arith in
            rw (SortedMap.cap, size, many, r.indexed)
              (
                got.0,
                record {
                  ordered =
                      IsOrdered-append_left (take threshold txs) (drop threshold txs)
                        (subst IsOrdered (sym whole) r.ordered);
                  bounded =
                      All-append_left IsUint64 (take threshold txs) (drop threshold txs)
                        (subst (All IsUint64) (sym whole) r.bounded);
                  sorted = got.1;
                  indexed = take-nonces threshold txs;
                  cached = elim r.cached [
                    | inl e ↦ inl (rw e refl)
                    | inr e ↦ inr (rw (e, size, r.indexed, got.0, count, keep) refl)
                  ];
                },
              )
      ]

pub ready_from-Refines :
    (m : SortedMap) (txs : List Tx) (r : Refines m txs) (start : ℕ) (index : List ℕ)
    → index ≡ nonces txs
    → ((ready_from index start m).0 ≡ map some (ready_txs start txs))
      × Refines (ready_from index start m).1 (left_txs start txs)
unfolding ready_from
ready_from-Refines m [] r start index e = rw e (refl, r)
ready_from-Refines m (x ∷ txs) r start index e = elim (Bool-cases (ltb start x.nonce)) [
  | inl later ↦ rw (e, later) (refl, r)
  | inr now ↦
      let took : Took (ready_loop x.nonce m.index m.items) (run_of x.nonce (x ∷ txs))
          (after_run x.nonce (x ∷ txs)) =
        rw r.indexed (ready_loop-Took x.nonce (x ∷ txs) m.items r.ordered r.bounded r.sorted) in
      let whole = run_of-append-after_run x.nonce (x ∷ txs) in
      rw (e, now)
        (
          took.taken_all,
          record {
            ordered = after_run-IsOrdered x.nonce (x ∷ txs) r.ordered;
            bounded =
                All-append_right IsUint64 (run_of x.nonce (x ∷ txs)) (after_run x.nonce (x ∷ txs))
                  (subst (All IsUint64) (sym whole) r.bounded);
            sorted = took.items_left;
            indexed = took.index_left;
            cached = inl refl;
          },
        )
]
