-- ===== src/Mtp/Becomes.antt =====
-- What a change of a trie at one key is, and that it is one of the trie about it: below a short
-- node, in a full node's child, and behind a hash.
use uranus.Prelude.{
  ℕ, suc, ◌≤◌, ◌≡◌, ◌≢◌, refl, sym, ◌∙◌, ap, subst, Bool, true, false, Option, some, List, [], ◌∷◌,
  ◌++◌, ◌==◌, if◌then◌else◌, inl, inr, Bool-cases, update, update_self, update_same, ==_iff,
}
use uranus.Mtp.Node.{Node, short, full, hash}
use uranus.Mtp.Keys.{same}
use uranus.Mtp.Segments.{Leads, strip-cases, Leads-rest, same-append, same-strip}
use uranus.Mtp.Content.{
  content, IsTrie, IsTrie-suc, content-short, content-short_none, content-hash, content-suc,
}
use uranus.Mtp.Ops.{Altered, rebuild}

module _ (load : List ℕ → Option Node) where
  -- The trie `m` holds `w` at the key, and what `n` does at all others.
  pub record Becomes (d : ℕ) (p : Bool) (n m : Node) (key : List ℕ) (w : Option (List ℕ))
      : Type 0 where
    pub shape : IsTrie load d p m
    pub holds :
        (k : List ℕ)
        → Leads p k true
        → content load d m k ≡ (if same key k then w else content load d n k)

  -- What an operation returns: the new node, and with a false mark the old one is as good.
  pub record Changes (d : ℕ) (p : Bool) (n : Node) (key : List ℕ) (w : Option (List ℕ))
      (r : Altered) : Type 0 where
    pub new : Becomes d p n r.1 key w
    pub old : r.0 ≡ false → Becomes d p n n key w

  pub Becomes-short :
      (d : ℕ) (p q : Bool) (nkey : List ℕ) (val m : Node) (key : List ℕ) (w : Option (List ℕ))
      → nkey ≢ []
      → Leads p nkey q
      → Becomes d q val m key w
      → Becomes d p (short nkey val) (short nkey m) (nkey ++ key) w
  Becomes-short d p q nkey val m key w ne l b = record {
    shape = (ne, (q, l, b.shape));
    holds = λ k lk. elim (strip-cases nkey k) [
      | inl e ↦
          rw (same-strip nkey key k e)
            (content-short_none load d nkey m k e ∙ sym (content-short_none load d nkey val k e))
      | inr (rest, left, e) ↦
          let below = Leads-rest p q true nkey rest l (subst (λ t. Leads p t true) e lk) in
          rw e (
            rw (same-append nkey key rest, content-short load d nkey val rest)
              (content-short load d nkey m rest ∙ b.holds rest below))
    ];
  }

  -- A child of a full node, at the index of a write and elsewhere.
  pub IsTrie-update :
      (d : ℕ) (f : ℕ → Node) (x : ℕ) (c : Node)
      → ((y : ℕ) → y ≤ 16 → IsTrie load d (y == 16) (f y))
      → IsTrie load d (x == 16) c
      → (y : ℕ) → y ≤ 16
      → IsTrie load d (y == 16) (update f x c y)
  IsTrie-update d f x c t tc y le = elim (Bool-cases (x == y)) [
    | inl eq ↦
        subst (λ z. IsTrie load d (z == 16) (update f x c z)) ((==_iff x y).0 eq)
          (subst (λ m. IsTrie load d (x == 16) m) (sym (update_self f x c)) tc)
    | inr ne ↦ rw ne (t y le)
  ]

  content-update :
      (d : ℕ) (f : ℕ → Node) (x : ℕ) (c : Node) (key : List ℕ) (w : Option (List ℕ))
      → ((k : List ℕ)
          → Leads (x == 16) k true
          → content load d c k ≡ (if same key k then w else content load d (f x) k))
      → (k : List ℕ) → Leads false k true
      → content load d (full (update f x c)) k
        ≡ (if same (x ∷ key) k then w else content load d (full f) k)
  unfolding content same
  content-update d f x c key w h [] l = absurd (cc)
  content-update d f x c key w h (y ∷ k) l = elim (Bool-cases (x == y)) [
    | inl eq ↦
        let e : x ≡ y = (==_iff x y).0 eq in
        rw (eq, ← e) (ap (λ m. content load d m k) (update_self f x c) ∙ h k (rw e l.1))
    | inr ne ↦ rw (ne, content) refl
  ]

  pub Becomes-full :
      (d : ℕ) (f : ℕ → Node) (x : ℕ) (c : Node) (key : List ℕ) (w : Option (List ℕ))
      → IsTrie load d false (full f)
      → Becomes d (x == 16) (f x) c key w
      → Becomes d false (full f) (full (update f x c)) (x ∷ key) w
  Becomes-full d f x c key w t b = record {
    shape = (refl, IsTrie-update d f x c t.1 b.shape);
    holds = content-update d f x c key w b.holds;
  }

  pub Becomes-hash :
      (d : ℕ) (p : Bool) (h : List ℕ) (n m : Node) (key : List ℕ) (w : Option (List ℕ))
      → load h ≡ some n
      → Becomes d p n m key w
      → Becomes (suc d) p (hash h) m key w
  Becomes-hash d p h n m key w e b = record {
    shape = IsTrie-suc load d p m b.shape;
    holds = λ k lk.
        rw (content-hash load d h n k e) (content-suc load d p m k b.shape lk ∙ b.holds k lk);
  }

  pub Changes-rebuild :
      (d : ℕ) (p q : Bool) (n c : Node) (key below : List ℕ) (w : Option (List ℕ))
      (place : Node → Node)
      → ((m : Node) → Becomes d q c m below w → Becomes d p n (place m) key w)
      → (Becomes d q c c below w → Becomes d p n n key w)
      → (r : Altered) → Changes d q c below w r
      → Changes d p n key w (rebuild place n r)
  Changes-rebuild d p q n c key below w place put keep (true, m) h = record {
    new = put m h.new;
    old = λ e. absurd (cc);
  }
  Changes-rebuild d p q n c key below w place put keep (false, m) h = record {
    new = keep (h.old refl);
    old = λ e. keep (h.old refl);
  }

  -- A hash that is loaded and found as it should be may stay.
  pub Changes-hash :
      (d : ℕ) (p : Bool) (h : List ℕ) (n : Node) (key : List ℕ) (w : Option (List ℕ))
      → load h ≡ some n
      → IsTrie load d p n
      → (r : Altered) → Changes d p n key w r
      → Changes (suc d) p (hash h) key w (rebuild (λ nn. nn) n r)
  Changes-hash d p h n key w e t (true, m) c = record {
    new = Becomes-hash d p h n m key w e c.new;
    old = λ e. absurd (cc);
  }
  Changes-hash d p h n key w e t (false, m) c = record {
    new = Becomes-hash d p h n n key w e (c.old refl);
    old = λ _. record {
      shape = (n, e, t);
      holds = λ k lk. rw (content-hash load d h n k e) ((c.old refl).holds k lk);
    };
  }

  pub Becomes-full_keep :
      (d : ℕ) (f : ℕ → Node) (x : ℕ) (key : List ℕ) (w : Option (List ℕ))
      → IsTrie load d false (full f)
      → Becomes d (x == 16) (f x) (f x) key w
      → Becomes d false (full f) (full f) (x ∷ key) w
  Becomes-full_keep d f x key w t b =
      subst (λ g. Becomes d false (full f) (full g) (x ∷ key) w) (update_same f x)
        (Becomes-full d f x (f x) key w t b)
