-- ===== src/Pool/Filtered.antt =====
-- core/txpool/list.go: what Filter of a txList removes and leaves, with and without its shortcut.
use uranus.Prelude.{
  ℕ, ◌≡◌, refl, sym, ◌∙◌, ap, subst, Bool, not, ◌&&◌, List, [], ◌∷◌, length, ltb, leb,
  if◌then◌else◌, arith, inl, inr, Bool-cases, All, All-mono,
}
use uranus.Pool.SortedMap
use uranus.Pool.SortedMap.{Tx, SortedMap, cost, select, insert_tx, sort_txs}
use uranus.Pool.Ordered.{Passes, Fails, select-Passes, select-Fails}
use uranus.Pool.Refines.{Refines, filter-Refines, length-zero}
use uranus.Pool.TxList
use uranus.Pool.TxList.{TxList, exceeds, is_after, lowest, max_uint64, filter_all}
use uranus.Pool.Limits.{until, since, IsWithin, Lists, lowest-sort_txs, cut}

until-Fails : (p : Tx → Bool) (txs : List Tx) → All (Fails p) (until p txs)
until-Fails p [] = tt
until-Fails p (x ∷ txs) = elim (Bool-cases (p x)) [
  | inl px ↦ rw px tt
  | inr px ↦ rw px (px, until-Fails p txs)
]

pub until-all :
    (p : Tx → Bool) (txs : List Tx) → All (Fails p) txs → (until p txs ≡ txs) × (since p txs ≡ [])
until-all p [] h = (refl, refl)
until-all p (x ∷ txs) h = let rest = until-all p txs h.1 in (rw (h.0, rest.0) refl, rw h.0 rest.1)

select-not-Fails : (p : Tx → Bool) (txs : List Tx) → All (Fails p) (select (λ tx. not (p tx)) txs)
select-not-Fails p [] = tt
select-not-Fails p (x ∷ txs) = elim (Bool-cases (p x)) [
  | inl px ↦ rw px (select-not-Fails p txs)
  | inr px ↦ rw px (px, select-not-Fails p txs)
]

select-none : (p : Tx → Bool) (txs : List Tx) → select p txs ≡ [] → All (Fails p) txs
select-none p [] h = tt
select-none p (x ∷ txs) h = elim (Bool-cases (p x)) [
  | inl px ↦ let no : x ∷ select p txs ≡ [] = rw px at h in absurd (cc)
  | inr px ↦ (px, select-none p txs (rw px at h))
]

IsWithin-limits :
    (c g : ℕ) (l : TxList) (txs : List Tx)
    → l.costcap ≡ c
    → l.gascap ≡ g
    → All (Fails (exceeds c g)) txs
    → All (IsWithin l) txs
IsWithin-limits c g l txs ec eg h =
    All-mono (Fails (exceeds c g)) (IsWithin l) txs (λ t f. ground arith) h

-- What is left under limits, by the mode of the list.
abbrev pub kept : Bool → (Tx → Bool) → List Tx → List Tx
kept strict p txs = if strict then until p txs else select (λ tx. not (p tx)) txs

-- What a removal makes invalid: in strict mode, what follows the first that is removed.
abbrev pub invalid : Bool → (Tx → Bool) → List Tx → List Tx
invalid strict p txs = if strict then select (λ tx. not (p tx)) (since p txs) else []

-- The three lists that Filter makes.
pub record Filters (strict : Bool) (p : Tx → Bool) (txs : List Tx) (r : List Tx × List Tx × TxList)
    : Type 0 where
  pub removed_all : sort_txs r.0 ≡ select p txs
  pub invalidated : sort_txs r.1 ≡ invalid strict p txs
  pub left : Lists r.2 (kept strict p txs)
  pub same_mode : r.2.strict ≡ strict

-- Where no transaction is over a limit, nothing happens.
nothing_over :
    (p : Tx → Bool) (l : TxList) (txs : List Tx)
    → All (Fails p) txs
    → Lists l txs
    → Filters l.strict p txs ([], [], l)
unfolding sort_txs
nothing_over p l txs none_over h =
    let all = until-all p txs none_over in
    let rest : select (λ tx. not (p tx)) txs ≡ txs =
      select-Passes (λ tx. not (p tx)) txs
        (All-mono (Fails p) (Passes (λ tx. not (p tx))) txs (λ t f. ground arith) none_over) in
    let gone : select p txs ≡ [] = select-Fails p txs none_over in
    let mode : kept l.strict p txs ≡ txs = elim (Bool-cases l.strict) [
      | inl s ↦ rw s all.0
      | inr s ↦ rw s rest
    ] in
    record {
      removed_all = sym gone;
      invalidated = elim (Bool-cases l.strict) [ inl s ↦ rw (s, all.1) refl | inr s ↦ rw s refl ];
      left = subst (Lists l) (sym mode) h;
      same_mode = refl;
    }

filter_all-Filters :
    (c g : ℕ) (l : TxList) (txs : List Tx)
    → Lists l txs
    → Filters l.strict (exceeds c g) txs (filter_all c g l)
unfolding filter_all sort_txs
filter_all-Filters c g l txs h =
    let p = exceeds c g in
    let m = SortedMap.filter p l.txs in
    let m' = SortedMap.filter (is_after (lowest max_uint64 m.0)) m.1 in
    let one = filter-Refines h.refines p in
    let low : lowest max_uint64 (SortedMap.filter p l.txs).0 ≡ lowest max_uint64 (select p txs) =
      sym (lowest-sort_txs max_uint64 (SortedMap.filter p l.txs).0)
      ∙ ap (lowest max_uint64) one.0 in
    let two = filter-Refines one.1 (is_after (lowest max_uint64 (SortedMap.filter p l.txs).0)) in
    let cuts = cut p txs h.refines.bounded h.refines.ordered in
    let l' : TxList = record l { txs = m.1; costcap = c; gascap = g } in
    let rest : All (IsWithin l') (select (λ tx. not (p tx)) txs) =
      IsWithin-limits c g l' (select (λ tx. not (p tx)) txs) refl refl (select-not-Fails p txs) in
    elim (Bool-cases l.strict) [
      | inr loose ↦
          let e : filter_all c g l ≡ (m.0, [], l') = rw (filter_all, loose) refl in
          let mode : kept l.strict p txs ≡ select (λ tx. not (p tx)) txs = rw loose refl in
          subst (Filters l.strict p txs) (sym e) (record {
            removed_all = one.0;
            invalidated = rw loose refl;
            left = subst (Lists l') (sym mode) (record { refines = one.1; within = rest });
            same_mode = refl;
          })
      | inl strict ↦ elim (Bool-cases (ltb 0 (length m.0))) [
        | inl some_removed ↦
            let e : filter_all c g l ≡ (m.0, m'.0, record l' { txs = m'.1 }) =
              rw (filter_all, strict, some_removed) refl in
            let mode : kept l.strict p txs ≡ until p txs = rw strict refl in
            subst (Filters l.strict p txs) (sym e) (record {
              removed_all = one.0;
              invalidated =
                  two.0
                  ∙ ap (λ n. select (is_after n) (select (λ tx. not (p tx)) txs)) low
                  ∙ cuts.1
                  ∙ (rw strict refl);
              left = subst (Lists (record l' { txs = m'.1 })) (sym mode) (record {
                refines =
                    subst (Refines m'.1)
                      (ap (λ n. select (λ tx. not (is_after n tx)) (select (λ tx. not (p tx)) txs))
                          low
                        ∙ cuts.0)
                      two.1;
                within =
                    IsWithin-limits c g (record l' { txs = m'.1 }) (until p txs) refl refl
                      (until-Fails p txs);
              });
              same_mode = refl;
            })
        | inr none_removed ↦
            let e : filter_all c g l ≡ (m.0, [], l') = rw (filter_all, strict, none_removed) refl in
            let gone : m.0 ≡ [] = length-zero m.0 none_removed in
            let none_over = select-none p txs (sym one.0 ∙ ap sort_txs gone) in
            let all = until-all p txs none_over in
            let mode : kept l.strict p txs ≡ txs = rw strict all.0 in
            let same : select (λ tx. not (p tx)) txs ≡ txs =
              select-Passes (λ tx. not (p tx)) txs
                (All-mono (Fails p) (Passes (λ tx. not (p tx))) txs (λ t f. rw f refl) none_over) in
            subst (Filters l.strict p txs) (sym e) (record {
              removed_all = one.0;
              invalidated = rw (strict, all.1) refl;
              left =
                  subst (Lists l') (sym mode)
                    (subst (Lists l') same (record { refines = one.1; within = rest }));
              same_mode = refl;
            })
      ]
    ]

-- Filter of a txList whose caps bound its transactions removes exactly those whose cost or gas
-- limit is over a limit, although it looks at none where the caps are within the limits; a strict
-- list keeps exactly those before the first that is removed, and the others after it are returned
-- as invalid; the new caps bound what is left.
pub filter-Filters :
    (c g : ℕ) (l : TxList) (txs : List Tx)
    → Lists l txs
    → Filters l.strict (exceeds c g) txs (TxList.filter c g l)
unfolding TxList.filter
filter-Filters c g l txs h = elim (Bool-cases (leb l.costcap c && leb l.gascap g)) [
  | inl short ↦
      rw (TxList.filter, short)
        (nothing_over (exceeds c g) l txs
          (All-mono (IsWithin l) (Fails (exceeds c g)) txs (λ t w. ground arith) h.within) h)
  | inr long ↦ rw (TxList.filter, long) (filter_all-Filters c g l txs h)
]
