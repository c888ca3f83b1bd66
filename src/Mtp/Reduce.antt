-- ===== src/Mtp/Reduce.antt =====
-- common/mtp/trie.go: how `delete` keeps a trie small. A short node above a short node becomes one,
-- and a full node with one child left becomes a short node; both hold what they held.
use uranus.Prelude.{
  ℕ, zero, suc, ◌≤◌, ◌≡◌, ◌≢◌, refl, sym, ◌∙◌, subst, Bool, true, false, Option, List, [], ◌∷◌,
  ◌++◌, ◌==◌, inl, inr,
}
use uranus.Mtp.Node.{Node, empty, value, short, full, hash, ok}
use uranus.Mtp.Segments.{
  Leads, strip-cases, strip-append-append, strip_more, Leads-rest, Leads-append,
}
use uranus.Mtp.Content.{
  content, IsTrie, IsTrie-suc, content-short, content-short_none, content-hash, content-suc,
}
use uranus.Mtp.Becomes.{Becomes}
use uranus.Mtp.Get.{resolve_hash-loaded}
use uranus.Mtp.Ops.{tack, merge, resolve}

module _ (load : List ℕ → Option Node) where
  -- A trie in place of another, with the same content.
  pub record Alike (d : ℕ) (p : Bool) (n m : Node) : Type 0 where
    pub shape : IsTrie load d p m
    pub holds : (k : List ℕ) → Leads p k true → content load d m k ≡ content load d n k

  pub Alike-self : (d : ℕ) (p : Bool) (n : Node) → IsTrie load d p n → Alike d p n n
  Alike-self d p n t = record { shape = t; holds = λ k lk. refl }

  pub Alike-trans :
      (d : ℕ) (p : Bool) (n m o : Node) → Alike d p n m → Alike d p m o → Alike d p n o
  Alike-trans d p n m o a b = record {
    shape = b.shape;
    holds = λ k lk. b.holds k lk ∙ a.holds k lk;
  }

  pub Becomes-Alike :
      (d : ℕ) (p : Bool) (n m o : Node) (key : List ℕ) (w : Option (List ℕ))
      → Becomes load d p n m key w
      → Alike d p m o
      → Becomes load d p n o key w
  Becomes-Alike d p n m o key w b a = record {
    shape = a.shape;
    holds = λ k lk. a.holds k lk ∙ b.holds k lk;
  }

  Alike-short :
      (d : ℕ) (p q : Bool) (nkey : List ℕ) (val m : Node)
      → nkey ≢ []
      → Leads p nkey q
      → Alike d q val m
      → Alike d p (short nkey val) (short nkey m)
  Alike-short d p q nkey val m ne l a = record {
    shape = (ne, (q, l, a.shape));
    holds = λ k lk. elim (strip-cases nkey k) [
      | inl e ↦ content-short_none load d nkey m k e ∙ sym (content-short_none load d nkey val k e)
      | inr (rest, left, e) ↦
          let below = Leads-rest p q true nkey rest l (subst (λ t. Leads p t true) e lk) in
          rw e (
            content-short load d nkey m rest
            ∙ a.holds rest below
            ∙ sym (content-short load d nkey val rest))
    ];
  }

  content-short-short :
      (d : ℕ) (a b : List ℕ) (val : Node) (k : List ℕ)
      → content load d (short (a ++ b) val) k ≡ content load d (short a (short b val)) k
  unfolding content
  content-short-short d a b val k = elim (strip-cases a k) [
    | inl e ↦ rw (content, e, strip_more a b k e) refl
    | inr (rest, left, e) ↦ rw e (
        rw (content-short load d a (short b val) rest)
          (rw (content, strip-append-append a b rest) refl))
  ]

  append-ne-nil : (a b : List ℕ) → a ≢ [] → a ++ b ≢ []
  append-ne-nil [] b ne = absurd (ne refl)
  append-ne-nil (x ∷ a) b ne = λ e. cc

  -- Two short nodes in one.
  Alike-append :
      (d : ℕ) (p : Bool) (a b : List ℕ) (val : Node)
      → IsTrie load d p (short a (short b val))
      → Alike d p (short a (short b val)) (short (a ++ b) val)
  Alike-append d p a b val t = record {
    shape =
        let inner = t.1.2.1 in
        (append-ne-nil a b t.0, (inner.0, Leads-append p t.1.0 inner.0 a b t.1.1 inner.1, inner.2));
    holds = λ k lk. content-short-short d a b val k;
  }

  pub Alike-merge :
      (d : ℕ) (p : Bool) (nkey : List ℕ) (m : Node)
      → IsTrie load d p (short nkey m)
      → Alike d p (short nkey m) (merge nkey m)
  Alike-merge d p nkey (short k v) t = Alike-append d p nkey k v t
  Alike-merge d p nkey empty t = Alike-self d p (short nkey empty) t
  Alike-merge d p nkey (value v) t = Alike-self d p (short nkey (value v)) t
  Alike-merge d p nkey (full f) t = Alike-self d p (short nkey (full f)) t
  Alike-merge d p nkey (hash h) t = Alike-self d p (short nkey (hash h)) t

  -- A node that is resolved stands for the one that is loaded.
  pub resolve-Alike :
      (d : ℕ) (p : Bool) (n : Node)
      → IsTrie load d p n
      → (m : Node) × (resolve load n ≡ ok m) × Alike d p n m
  unfolding resolve
  resolve-Alike d p empty t = (_, refl, Alike-self d p empty t)
  resolve-Alike d p (value v) t = (_, refl, Alike-self d p (value v) t)
  resolve-Alike d p (short k v) t = (_, refl, Alike-self d p (short k v) t)
  resolve-Alike d p (full f) t = (_, refl, Alike-self d p (full f) t)
  resolve-Alike zero p (hash h) t = elim t [ ]
  resolve-Alike (suc d) p (hash h) t = (
    t.0,
    resolve_hash-loaded load h t.0 t.1,
    record {
      shape = IsTrie-suc load d p t.0 t.2;
      holds = λ k lk. content-suc load d p t.0 k t.2 lk ∙ sym (content-hash load d h t.0 k t.1);
    },
  )

  pub Alike-tack :
      (d p : ℕ) (c cnode : Node)
      → p ≤ 16
      → IsTrie load d (p == 16) c
      → Alike d (p == 16) c cnode
      → Alike d false (short (p ∷ []) c) (tack p c cnode)
  Alike-tack d p c (short k v) le t a =
      let step = Alike-short d false (p == 16) (p ∷ []) c (short k v) (λ e. cc) (le, refl) a in
      Alike-trans d false _ _ _ step (Alike-append d false (p ∷ []) k v step.shape)
  Alike-tack d p c empty le t a = Alike-self d false _ ((λ e. cc), ((p == 16), (le, refl), t))
  Alike-tack d p c (value v) le t a = Alike-self d false _ ((λ e. cc), ((p == 16), (le, refl), t))
  Alike-tack d p c (full f) le t a = Alike-self d false _ ((λ e. cc), ((p == 16), (le, refl), t))
  Alike-tack d p c (hash h) le t a = Alike-self d false _ ((λ e. cc), ((p == 16), (le, refl), t))
