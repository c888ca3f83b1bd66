-- ===== src/Mtp/Single.antt =====
-- common/mtp/trie.go: the loop of `delete` over the children of a full node finds the one that is
-- left, and the full node is then as good as a short node.
use uranus.Prelude.{
  ℕ, zero, suc, ◌+◌, ◌≤◌, ◌<◌, ◌≡◌, ◌≢◌, refl, ap, true, false, Option, List, [], ◌∷◌, ◌==◌,
  if◌then◌else◌, arith, inl, inr, Bool-cases, ==_iff,
}
use uranus.Mtp.Node.{Node, empty, value, short, full, hash, ok, is_there}
use uranus.Mtp.Segments.{strip, Leads}
use uranus.Mtp.Content.{content, IsTrie}
use uranus.Mtp.Reduce.{Alike, Alike-self, Alike-trans, Alike-tack, resolve-Alike}
use uranus.Mtp.Ops.{Left, nothing, one, many, count_left, tack, reduce}

-- What the loop knows before the index `i`.
abbrev Only : (ℕ → Node) → ℕ → Left → Type 0
Only f i nothing = (y : ℕ) → y < i → is_there (f y) ≡ false
Only f i (one p) = (p < i) × ((y : ℕ) → y < i → y ≢ p → is_there (f y) ≡ false)
Only f i many = Unit {0}

Only-suc_nothing :
    (f : ℕ → Node) (i : ℕ)
    → Only f i nothing
    → Only f (suc i) (if is_there (f i) then one i else nothing)
Only-suc_nothing f i o = elim (Bool-cases (is_there (f i))) [
  | inl there ↦ rw there (omega arith, λ y lt ne. o y (omega arith))
  | inr gone ↦ rw gone (λ y lt. elim (Bool-cases (y == i)) [
    | inl e ↦ rw ((==_iff y i).0 e) gone
    | inr e ↦ o y (ground arith)
  ])
]

Only-suc_one :
    (f : ℕ → Node) (i p : ℕ) → Only f i (one p) → is_there (f i) ≡ false → Only f (suc i) (one p)
Only-suc_one f i p o gone = (
  omega (arith, o.0),
  λ y lt ne. elim (Bool-cases (y == i)) [
    | inl e ↦ rw ((==_iff y i).0 e) gone
    | inr e ↦ o.1 y (ground arith) ne
  ],
)

count_left-one :
    (f : ℕ → Node) (rounds i : ℕ) (pos : Left) (p : ℕ)
    → Only f i pos
    → count_left f rounds i pos ≡ one p
    → Only f (i + rounds) (one p)
unfolding count_left
count_left-one f zero i nothing p o e = absurd (cc)
count_left-one f zero i (one q) p o e =
    let s : i + 0 ≡ i = omega arith in let qp : q ≡ p = cc in rw (s, ← qp) o
count_left-one f zero i many p o e = absurd (cc)
count_left-one f (suc rounds) i nothing p o e =
    let s : i + suc rounds ≡ suc i + rounds = omega arith in
    rw s (
      count_left-one f rounds (suc i) (if is_there (f i) then one i else nothing) p
        (Only-suc_nothing f i o) e)
count_left-one f (suc rounds) i (one q) p o e = elim (Bool-cases (is_there (f i))) [
  | inl there ↦ let no : many ≡ one p = rw (count_left, there) at e in absurd (cc)
  | inr gone ↦
      let s : i + suc rounds ≡ suc i + rounds = omega arith in
      let go : count_left f rounds (suc i) (one q) ≡ one p = rw (count_left, gone) at e in
      rw s (count_left-one f rounds (suc i) (one q) p (Only-suc_one f i q o gone) go)
]
count_left-one f (suc rounds) i many p o e = absurd (cc)

not_there : (n : Node) → is_there n ≡ false → n ≡ empty
not_there empty e = refl
not_there (value v) e = absurd (cc)
not_there (short k v) e = absurd (cc)
not_there (full f) e = absurd (cc)
not_there (hash h) e = absurd (cc)

module _ (load : List ℕ → Option Node) where
  content-single :
      (d : ℕ) (f : ℕ → Node) (p : ℕ)
      → Only f 17 (one p)
      → (k : List ℕ) → Leads false k true
      → content load d (short (p ∷ []) (f p)) k ≡ content load d (full f) k
  unfolding content strip
  content-single d f p o [] l = absurd (cc)
  content-single d f p o (y ∷ k) l = elim (Bool-cases (p == y)) [
    | inl e ↦ rw (content, strip, e) (ap (λ z. content load d (f z) k) ((==_iff p y).0 e))
    | inr e ↦
        let gone : f y ≡ empty = not_there (f y) (o.1 y (omega (arith, l.0)) (ground arith)) in
        rw (content, strip, e, gone) refl
  ]

  Alike-single :
      (d : ℕ) (f : ℕ → Node) (p : ℕ)
      → Only f 17 (one p)
      → IsTrie load d false (full f)
      → Alike load d false (full f) (short (p ∷ []) (f p))
  Alike-single d f p o t = record {
    shape = let le : p ≤ 16 = omega (arith, o.0) in ((λ e. cc), ((p == 16), (le, refl), t.1 p le));
    holds = content-single d f p o;
  }

  -- `reduce` returns, and what it returns holds what the full node held.
  pub reduce-Alike :
      (d : ℕ) (f : ℕ → Node) (pos : Left)
      → IsTrie load d false (full f)
      → count_left f 17 0 nothing ≡ pos
      → (m : Node) × (reduce load f pos ≡ ok m) × Alike load d false (full f) m
  unfolding reduce
  reduce-Alike d f nothing t e = (full f, refl, Alike-self load d false (full f) t)
  reduce-Alike d f many t e = (full f, refl, Alike-self load d false (full f) t)
  reduce-Alike d f (one p) t e =
      let o : Only f 17 (one p) =
        count_left-one f 17 0 nothing p (λ y lt. absurd (omega arith)) e in
      let single = Alike-single d f p o t in
      let le : p ≤ 16 = omega (arith, o.0) in
      let got = resolve-Alike load d (p == 16) (f p) (t.1 p le) in
      elim (Bool-cases (p == 16)) [
        | inl last ↦ (short (p ∷ []) (f p), rw last refl, single)
        | inr before ↦ (
          tack p (f p) got.0,
          rw (before, got.1) refl,
          Alike-trans load d false _ _ _ single
              (Alike-tack load d p (f p) got.0 le (t.1 p le) got.2),
        )
      ]
