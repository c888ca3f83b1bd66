-- ===== src/Mtp/Get.antt =====
-- common/mtp/trie.go: `try_get` finds what the trie holds, and what it loads on the way leaves a
-- trie with the same content.
use uranus.Prelude.{
  ℕ, zero, suc, ◌≡◌, refl, sym, ◌∙◌, subst, Bool, true, false, not, ◌||◌, Option, none, some, List,
  [], ◌∷◌, ◌++◌, ◌==◌, arith, inl, inr, Bool-cases, update, ltb, length, take, length-append,
}
use uranus.Mtp.Node.{Node, empty, value, short, full, hash, ok}
use uranus.Mtp.Keys.{same}
use uranus.Mtp.Segments.{
  strip, Leads, strip-cases, Leads-rest, same_self, same→eq, take-append, drop-append,
}
use uranus.Mtp.Content.{content, IsTrie, content-short, content-short_none, content-hash}
use uranus.Mtp.Becomes.{Becomes, Becomes-short, Becomes-full, Becomes-hash}
use uranus.Mtp.Ops.{Got, regrow, try_get, resolve_hash}

-- The test of a short node by length and bytes is the test for a prefix.
pub differs-strip :
    (nkey key : List ℕ)
    → strip nkey key ≡ none
    → (ltb (length key) (length nkey) || not (same nkey (take (length nkey) key))) ≡ true
unfolding strip same
differs-strip [] key e = absurd (cc)
differs-strip (x ∷ nkey) [] e = ground arith
differs-strip (x ∷ nkey) (y ∷ key) e = ground (arith, differs-strip nkey key)

pub agrees-append :
    (nkey rest : List ℕ)
    → (ltb (length (nkey ++ rest)) (length nkey)
        || not (same nkey (take (length nkey) (nkey ++ rest))))
      ≡ false
agrees-append nkey rest =
    rw (take-append nkey rest, same_self nkey) (ground (arith, length-append nkey rest))

module _ (load : List ℕ → Option Node) where
  pub resolve_hash-loaded : (h : List ℕ) (n : Node) → load h ≡ some n → resolve_hash load h ≡ ok n
  unfolding resolve_hash
  resolve_hash-loaded h n e = rw (e, resolve_hash) refl

  -- Where nothing changes, a trie becomes itself with what it holds already.
  Becomes-self :
      (d : ℕ) (p : Bool) (n : Node) (key : List ℕ)
      → IsTrie load d p n
      → Becomes load d p n n key (content load d n key)
  Becomes-self d p n key t = record {
    shape = t;
    holds = λ k lk. elim (Bool-cases (same key k)) [
      | inl eq ↦ rw (eq, same→eq key k eq) refl
      | inr ne ↦ rw ne refl
    ];
  }

  -- What `try_get` returns is what the trie holds, with a node that holds the same.
  pub record Finds (d : ℕ) (p : Bool) (n : Node) (key : List ℕ) (g : Got) : Type 0 where
    pub value_found : g.found ≡ content load d n key
    pub node_alike : Becomes load d p n g.node key (content load d n key)

  Finds-regrow :
      (d : ℕ) (p q : Bool) (n c : Node) (key below : List ℕ) (place : Node → Node) (g : Got)
      → IsTrie load d p n
      → content load d n key ≡ content load d c below
      → (Becomes load d q c g.node below (content load d c below)
          → Becomes load d p n (place g.node) key (content load d c below))
      → Finds d q c below g
      → Finds d p n key (regrow place n g)
  Finds-regrow d p q n c key below place g t e put h = elim (Bool-cases g.resolved) [
    | inl r ↦
        rw r (record { value_found = h.value_found ∙ sym e; node_alike = rw e (put h.node_alike) })
    | inr r ↦
        rw r (record { value_found = h.value_found ∙ sym e; node_alike = Becomes-self d p n key t })
  ]

  -- From every trie, with fuel for the nodes that it loads, `try_get` returns.
  pub try_get-Finds :
      (d : ℕ) (p : Bool) (n : Node) (key : List ℕ)
      → IsTrie load d p n
      → Leads p key true
      → (g : Got) × (try_get load d n key ≡ ok g) × Finds d p n key g
  unfolding try_get content
  try_get-Finds d p empty key t l =
      (_, refl, record { value_found = refl; node_alike = Becomes-self d p empty key t })
  try_get-Finds d p (value v) [] t l =
      (_, refl, record { value_found = refl; node_alike = Becomes-self d p (value v) [] t })
  try_get-Finds d true (value v) (x ∷ key) t l = elim l [ ]
  try_get-Finds d false (value v) (x ∷ key) t l = absurd (cc)
  try_get-Finds d p (short nkey val) key t l = elim (strip-cases nkey key) [
    | inl e ↦ (
      record { found = none; node = short nkey val; resolved = false },
      rw (differs-strip nkey key e) refl,
      record {
        value_found = sym (content-short_none load d nkey val key e);
        node_alike = Becomes-self d p (short nkey val) key t;
      },
    )
    | inr (rest, left, e) ↦
        let below = Leads-rest p t.1.0 true nkey rest t.1.1 (subst (λ k. Leads p k true) e l) in
        let got = try_get-Finds d t.1.0 val rest t.1.2 below in
        rw e (
          regrow (short nkey) (short nkey val) got.0,
          rw (agrees-append nkey rest, drop-append nkey rest, got.1) refl,
          Finds-regrow d p t.1.0 (short nkey val) val (nkey ++ rest) rest (short nkey) got.0 t
              (content-short load d nkey val rest)
              (Becomes-short load d p t.1.0 nkey val got.0.node rest (content load d val rest) t.0
                t.1.1)
              got.2,
        )
  ]
  try_get-Finds d p (full f) [] t l = absurd (cc (l, t.0))
  try_get-Finds d true (full f) (x ∷ key) t l = elim l [ ]
  try_get-Finds d false (full f) (x ∷ key) t l =
      let got = try_get-Finds d (x == 16) (f x) key (t.1 x l.0) l.1 in
      (
        regrow (λ nn. full (update f x nn)) (full f) got.0,
        rw got.1 refl,
        Finds-regrow d false (x == 16) (full f) (f x) (x ∷ key) key (λ nn. full (update f x nn))
            got.0 t refl (Becomes-full load d f x got.0.node key (content load d (f x) key) t)
            got.2,
      )
  try_get-Finds zero p (hash h) key t l = elim t [ ]
  try_get-Finds (suc d) p (hash h) key t l =
      let got = try_get-Finds d p t.0 key t.2 l in
      let e = content-hash load d h t.0 key t.1 in
      (
        record got.0 { resolved = true },
        rw (resolve_hash-loaded h t.0 t.1, got.1) refl,
        record {
          value_found = got.2.value_found ∙ sym e;
          node_alike = rw e (
              Becomes-hash load d p h t.0 got.0.node key (content load d t.0 key) t.1
                got.2.node_alike);
        },
      )
