-- ===== src/Pool/Strict.antt =====
-- core/txpool/list.go: sequences of what takes transactions from a strict txList.
use uranus.Prelude.{
  ℕ, ◌≡◌, refl, sym, ◌∙◌, subst, Bool, true, false, not, List, [], ◌∷◌, take, drop, ◌==◌, inl, inr,
  Bool-cases, Option-cases, All, All-append_left, take-append-drop,
}
use uranus.Pool.SortedMap
use uranus.Pool.SortedMap.{Tx, SortedMap, get_tx, select, is_other, delete_tx}
use uranus.Pool.Sorting.{All-select}
use uranus.Pool.Ordered.{select-Passes, get_tx-none}
use uranus.Pool.Refines.{Refines, remove-Refines, filter-Refines}
use uranus.Pool.Loops.{is_below}
use uranus.Pool.Steps.{forward-Refines, cap-Refines, ready_from-Refines}
use uranus.Pool.TxList
use uranus.Pool.TxList.{TxList, is_after, exceeds}
use uranus.Pool.Limits.{IsWithin, Lists, until}
use uranus.Pool.Filtered.{filter-Filters}
use uranus.Pool.Gapless.{
  IsConsecutive, until-IsConsecutive, take-IsConsecutive, select-IsConsecutive, left_txs-cases,
  delete-until,
}

-- A call that takes transactions from a list.
pub data Taking : Type 0 where
  forwarding capping readying : ℕ → Taking
  filtering : ℕ → ℕ → Taking
  removing : Tx → Taking

unfoldable pub take_from : Taking → TxList → TxList
take_from (forwarding n) l = (TxList.forward n l).1
take_from (capping n) l = (TxList.cap n l).1
take_from (readying n) l = (TxList.ready n l).1
take_from (filtering c g) l = (TxList.filter c g l).2
take_from (removing tx) l = (TxList.remove tx l).2

-- The list is strict, and what it holds has no gaps.
pub record IsGapless (l : TxList) : Type 0 where
  pub is_strict : l.strict ≡ true
  pub txs : List Tx
  pub lists : Lists l txs
  pub consecutive : IsConsecutive txs

-- Other transactions in the same list.
replace_txs :
    (l : TxList) (m : SortedMap) (txs : List Tx)
    → l.strict ≡ true
    → Refines m txs
    → All (IsWithin l) txs
    → IsConsecutive txs
    → IsGapless (record l { txs = m })
replace_txs l m txs s r w c = record {
  is_strict = s;
  txs = txs;
  lists = record { refines = r; within = w };
  consecutive = c;
}

All-take :
    (l : TxList) (n : ℕ) (txs : List Tx) → All (IsWithin l) txs → All (IsWithin l) (take n txs)
All-take l n txs h =
    All-append_left (IsWithin l) (take n txs) (drop n txs)
      (subst (All (IsWithin l)) (sym (take-append-drop n txs)) h)

All-until :
    (l : TxList) (p : Tx → Bool) (txs : List Tx)
    → All (IsWithin l) txs
    → All (IsWithin l) (until p txs)
All-until l p [] h = tt
All-until l p (x ∷ txs) h = elim (Bool-cases (p x)) [
  | inl px ↦ rw px tt
  | inr px ↦ rw px (h.0, All-until l p txs h.1)
]

remove-IsGapless : (tx : Tx) (l : TxList) → IsGapless l → IsGapless (TxList.remove tx l).2
unfolding TxList.remove
remove-IsGapless tx l g =
    let n = tx.nonce in
    let m = SortedMap.remove n l.txs in
    let one = remove-Refines g.lists.refines n in
    let two = filter-Refines one.1 (is_after n) in
    elim (Option-cases (get_tx n g.txs)) [
      | inl e ↦
          let gone : m.0 ≡ false = one.0 ∙ (rw e refl) in
          let same : delete_tx n g.txs ≡ g.txs =
            select-Passes (is_other n) g.txs (get_tx-none n g.txs e) in
          let shown : TxList.remove tx l ≡ (false, [], record l { txs = m.1 }) =
            rw (TxList.remove, gone) refl in
          subst (λ r. IsGapless r.2) (sym shown)
            (replace_txs l m.1 g.txs g.is_strict (subst (Refines m.1) same one.1) g.lists.within
              g.consecutive)
      | inr (t, e) ↦
          let there : m.0 ≡ true = one.0 ∙ (rw e refl) in
          let f = SortedMap.filter (is_after n) m.1 in
          let cuts = delete-until n g.txs t g.lists.refines.ordered e in
          let shown : TxList.remove tx l ≡ (true, f.0, record l { txs = f.1 }) =
            rw (TxList.remove, there, g.is_strict) refl in
          subst (λ r. IsGapless r.2) (sym shown)
            (replace_txs l f.1 (until (λ u. u.nonce == n) g.txs) g.is_strict
              (subst (Refines f.1) cuts two.1)
              (All-until l (λ u. u.nonce == n) g.txs g.lists.within)
              (until-IsConsecutive (λ u. u.nonce == n) g.txs g.consecutive))
    ]

take_from-IsGapless : (call : Taking) (l : TxList) → IsGapless l → IsGapless (take_from call l)
unfolding take_from TxList.forward TxList.cap TxList.ready SortedMap.ready
take_from-IsGapless (forwarding n) l g =
    replace_txs l (SortedMap.forward n l.txs).1 (select (λ tx. not (is_below n tx)) g.txs)
      g.is_strict (forward-Refines g.lists.refines n).1
      (All-select (IsWithin l) (λ tx. not (is_below n tx)) g.txs g.lists.within)
      (select-IsConsecutive n g.txs g.lists.refines.ordered g.consecutive)
take_from-IsGapless (capping n) l g =
    replace_txs l (SortedMap.cap n l.txs).1 (take n g.txs) g.is_strict
      (cap-Refines g.lists.refines n).1 (All-take l n g.txs g.lists.within)
      (take-IsConsecutive n g.txs g.consecutive)
take_from-IsGapless (readying n) l g =
    let r =
      (ready_from-Refines l.txs g.txs g.lists.refines n l.txs.index g.lists.refines.indexed).1 in
    let m = (SortedMap.ready n l.txs).1 in
    elim (left_txs-cases n g.txs g.consecutive) [
      | inl e ↦
          replace_txs l m g.txs g.is_strict (subst (Refines m) e r) g.lists.within g.consecutive
      | inr e ↦ replace_txs l m [] g.is_strict (subst (Refines m) e r) tt tt
    ]
take_from-IsGapless (filtering c h) l g =
    let f = filter-Filters c h l g.txs g.lists in
    record {
      is_strict = f.same_mode ∙ g.is_strict;
      txs = until (exceeds c h) g.txs;
      lists = subst (Lists (TxList.filter c h l).2) (rw g.is_strict refl) f.left;
      consecutive = until-IsConsecutive (exceeds c h) g.txs g.consecutive;
    }
take_from-IsGapless (removing tx) l g = remove-IsGapless tx l g

unfoldable pub take_all : List Taking → TxList → TxList
unfolding take_from
take_all [] l = l
take_all (call ∷ calls) l = take_all calls (take_from call l)

-- A strict txList whose nonces have no gap and whose caps bound its transactions has no gap after
-- any sequence of Forward, Cap, Ready, Filter and Remove, and its caps still bound its
-- transactions.
pub take_all-IsGapless :
    (calls : List Taking) (l : TxList) → IsGapless l → IsGapless (take_all calls l)
unfolding take_all
take_all-IsGapless [] l g = g
take_all-IsGapless (call ∷ calls) l g =
    take_all-IsGapless calls (take_from call l) (take_from-IsGapless call l g)
