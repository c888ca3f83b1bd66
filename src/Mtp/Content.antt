-- ===== src/Mtp/Content.antt =====
-- What a trie holds, and which nodes are tries: the values by the keys that lead to them, and the
-- shape that the operations keep. A node stands either above the terminator or at the end of a key.
use uranus.Prelude.{
  ℕ, zero, suc, ◌≤◌, ◌≡◌, ◌≢◌, refl, sym, ◌∙◌, subst, Bool, true, false, Option, none, some, List,
  [], ◌∷◌, ◌++◌, ◌==◌, inl, inr,
}
use uranus.Mtp.Node.{Node, empty, value, short, full, hash}
use uranus.Mtp.Segments.{strip, Leads, strip-cases, strip-append, Leads-rest}

module _ (load : List ℕ → Option Node) where
  -- The value at a key, or none where the way to it ends or cannot be loaded.
  unfoldable pub content : ℕ → Node → List ℕ → Option (List ℕ)
  unfolding strip
  content d empty key = none
  content d (value v) [] = some v
  content d (value v) (x ∷ key) = none
  content d (short nkey val) key = elim (strip nkey key) [
    | none ↦ none
    | some rest ↦ content d val rest
  ]
  content d (full f) [] = none
  content d (full f) (x ∷ key) = content d (f x) key
  content zero (hash h) key = none
  content (suc d) (hash h) key = elim (load h) [ none ↦ none | some n ↦ content d n key ]

  -- Values stand at the ends of keys and nowhere else, the part of a key in a short node is not
  -- empty, and every hash loads a node that is a trie in turn, `d` of them deep at most.
  abbrev pub IsTrie : ℕ → Bool → Node → Type 0
  IsTrie d p empty = Unit {0}
  IsTrie d p (value v) = p ≡ true
  IsTrie d p (short nkey val) = (nkey ≢ []) × ((q : Bool) × Leads p nkey q × IsTrie d q val)
  IsTrie d p (full f) = (p ≡ false) × ((x : ℕ) → x ≤ 16 → IsTrie d (x == 16) (f x))
  IsTrie zero p (hash h) = ⊥
  IsTrie (suc d) p (hash h) = (n : Node) × (load h ≡ some n) × IsTrie d p n

  -- More fuel changes nothing.
  pub IsTrie-suc : (d : ℕ) (p : Bool) (n : Node) → IsTrie d p n → IsTrie (suc d) p n
  IsTrie-suc d p empty h = tt
  IsTrie-suc d p (value v) h = h
  IsTrie-suc d p (short nkey val) h = (h.0, (h.1.0, h.1.1, IsTrie-suc d h.1.0 val h.1.2))
  IsTrie-suc d p (full f) h = (h.0, λ x le. IsTrie-suc d (x == 16) (f x) (h.1 x le))
  IsTrie-suc zero p (hash h) k = elim k [ ]
  IsTrie-suc (suc d) p (hash h) k = (k.0, k.1, IsTrie-suc d p k.0 k.2)

  -- Below a short node.
  pub content-short :
      (d : ℕ) (nkey : List ℕ) (val : Node) (rest : List ℕ)
      → content d (short nkey val) (nkey ++ rest) ≡ content d val rest
  unfolding content
  content-short d nkey val rest = rw (strip-append nkey rest, content) refl

  pub content-short_none :
      (d : ℕ) (nkey : List ℕ) (val : Node) (key : List ℕ)
      → strip nkey key ≡ none
      → content d (short nkey val) key ≡ none
  unfolding content
  content-short_none d nkey val key e = rw (e, content) refl

  pub content-hash :
      (d : ℕ) (h : List ℕ) (n : Node) (key : List ℕ)
      → load h ≡ some n
      → content (suc d) (hash h) key ≡ content d n key
  unfolding content
  content-hash d h n key e = rw (e, content) refl

  pub content-suc :
      (d : ℕ) (p : Bool) (n : Node) (key : List ℕ)
      → IsTrie d p n
      → Leads p key true
      → content (suc d) n key ≡ content d n key
  unfolding content
  content-suc d p empty key h k = refl
  content-suc d p (value v) [] h k = refl
  content-suc d p (value v) (x ∷ key) h k = refl
  content-suc d p (short nkey val) key h k = elim (strip-cases nkey key) [
    | inl e ↦ content-short_none (suc d) nkey val key e ∙ sym (content-short_none d nkey val key e)
    | inr (rest, left, e) ↦
        let below = Leads-rest p h.1.0 true nkey rest h.1.1 (subst (λ t. Leads p t true) e k) in
        rw e (
          content-short (suc d) nkey val rest
          ∙ content-suc d h.1.0 val rest h.1.2 below
          ∙ sym (content-short d nkey val rest))
  ]
  content-suc d p (full f) [] h k = refl
  content-suc d false (full f) (x ∷ key) h k = content-suc d (x == 16) (f x) key (h.1 x k.0) k.1
  content-suc d true (full f) (x ∷ key) h k = elim k [ ]
  content-suc zero p (hash h) key t k = elim t [ ]
  content-suc (suc d) p (hash h) key t k =
      content-hash (suc d) h t.0 key t.1
      ∙ content-suc d p t.0 key t.2 k
      ∙ sym (content-hash d h t.0 key t.1)
