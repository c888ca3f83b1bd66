-- ===== src/Mtp/Delete.antt =====
-- common/mtp/trie.go: `delete` returns a trie that holds nothing at its key and is unchanged at
-- every other.
use uranus.Prelude.{
  ℕ, zero, suc, ◌≡◌, ◌≢◌, refl, sym, ◌∙◌, ap, subst, Bool, true, false, Option, none, some, List,
  [], ◌∷◌, ◌++◌, ◌==◌, arith, inl, inr, Bool-cases, List-cases, update, ltb, length, length-append,
}
use mathlib.Core.List.{append-nil}
use uranus.Mtp.Node.{Node, empty, value, short, full, hash, ok}
use uranus.Mtp.Keys.{same}
use uranus.Mtp.Segments.{
  Leads, strip-cases, Leads-rest, Leads-end, same→eq, strip-nothing, strip-none, strip-parts,
  within, parts, ends, meet, prefix_len-append, prefix_len_self, prefix_len-parts, drop-append,
}
use uranus.Mtp.Content.{content, IsTrie, content-short_none}
use uranus.Mtp.Becomes.{
  Becomes, Changes, Becomes-short, Becomes-full, Becomes-full_keep, Changes-rebuild, Changes-hash,
}
use uranus.Mtp.Get.{resolve_hash-loaded}
use uranus.Mtp.Reduce.{Alike-merge, Becomes-Alike}
use uranus.Mtp.Single.{reduce-Alike}
use uranus.Mtp.Ops.{Altered, rebuild, delete, merge, after_delete, count_left, nothing}

module _ (load : List ℕ → Option Node) where
  -- Where there is nothing at the key, there is nothing to do.
  Becomes-absent :
      (d : ℕ) (p : Bool) (n : Node) (key : List ℕ)
      → IsTrie load d p n
      → content load d n key ≡ none
      → Becomes load d p n n key none
  Becomes-absent d p n key t e = record {
    shape = t;
    holds = λ k lk. elim (Bool-cases (same key k)) [
      | inl eq ↦ rw (eq, ← same→eq key k eq) e
      | inr ne ↦ rw ne refl
    ];
  }

  Changes-absent :
      (d : ℕ) (p : Bool) (n : Node) (key : List ℕ)
      → IsTrie load d p n
      → content load d n key ≡ none
      → Changes load d p n key none (false, n)
  Changes-absent d p n key t e = record {
    new = Becomes-absent d p n key t e;
    old = λ _. Becomes-absent d p n key t e;
  }

  -- A value, or a short node with nothing but the key below it, goes whole.
  Changes-whole :
      (d : ℕ) (p : Bool) (nkey : List ℕ) (val : Node)
      → Leads p nkey true
      → Changes load d p (short nkey val) nkey none (true, empty)
  unfolding content
  Changes-whole d p nkey val l = record {
    new = record {
      shape = tt;
      holds = λ k lk. elim (strip-cases nkey k) [
        | inl e ↦ rw (strip-none nkey k e) (sym (content-short_none load d nkey val k e))
        | inr (rest, left, e) ↦
            let over =
              Leads-end rest
                (Leads-rest p true true nkey rest l (subst (λ t. Leads p t true) e lk)) in
            rw (strip-nothing nkey k (left ∙ ap some over)) refl
      ];
    };
    old = λ e. absurd (cc);
  }

  Changes-value : (d : ℕ) (n : Node) → Changes load d true n [] none (true, empty)
  unfolding content same
  Changes-value d n = record {
    new = record { shape = tt; holds = λ k lk. rw (Leads-end k lk) refl };
    old = λ e. absurd (cc);
  }

  -- The step at a full node.
  after_delete-Changes :
      (d : ℕ) (f : ℕ → Node) (x : ℕ) (key : List ℕ)
      → IsTrie load d false (full f)
      → (r : Altered) → Changes load d (x == 16) (f x) key none r
      → (r' : Altered) × (after_delete load f x r ≡ ok r')
        × Changes load d false (full f) (x ∷ key) none r'
  unfolding after_delete
  after_delete-Changes d f x key t (false, nn) h =
      let keep = Becomes-full_keep load d f x key none t (h.old refl) in
      (_, refl, record { new = keep; old = λ _. keep })
  after_delete-Changes d f x key t (true, nn) h =
      let put = Becomes-full load d f x nn key none t h.new in
      let g = update f x nn in
      let got = reduce-Alike load d g (count_left g 17 0 nothing) put.shape refl in
      (
        (true, got.0),
        rw got.1 refl,
        record {
          new = Becomes-Alike load d false (full f) (full g) got.0 (x ∷ key) none put got.2;
          old = λ e. absurd (cc);
        },
      )

  -- The step at a short node whose key the key goes on from.
  delete-within :
      (d : ℕ) (p : Bool) (nkey : List ℕ) (val : Node) (y : ℕ) (rest : List ℕ)
      → (t : IsTrie load d p (short nkey val)) → (r : Altered) → delete load d val (y ∷ rest) ≡ ok r
      → Changes load d t.1.0 val (y ∷ rest) none r
      → (r' : Altered) × (delete load d (short nkey val) (nkey ++ y ∷ rest) ≡ ok r')
        × Changes load d p (short nkey val) (nkey ++ y ∷ rest) none r'
  unfolding delete
  delete-within d p nkey val y rest t r below h =
      let same_len : ltb (length nkey) (length nkey) ≡ false = ground arith in
      let longer : (length nkey == length (nkey ++ y ∷ rest)) ≡ false =
        ground (arith, length-append nkey (y ∷ rest)) in
      let place = λ (m : Node) (b : Becomes load d t.1.0 val m (y ∷ rest) none).
        Becomes-short load d p t.1.0 nkey val m (y ∷ rest) none t.0 t.1.1 b in
      let put = λ (m : Node) (b : Becomes load d t.1.0 val m (y ∷ rest) none).
        Becomes-Alike load d p (short nkey val) (short nkey m) (merge nkey m) (nkey ++ y ∷ rest)
          none (place m b) (Alike-merge load d p nkey m (place m b).shape) in
      (
        rebuild (merge nkey) (short nkey val) r,
        rw (prefix_len-append nkey (y ∷ rest), same_len, longer, drop-append nkey (y ∷ rest), below)
            refl,
        Changes-rebuild load d p t.1.0 (short nkey val) val (nkey ++ y ∷ rest) (y ∷ rest) none
            (merge nkey) put (place val) r h,
      )

  delete-whole :
      (d : ℕ) (p : Bool) (nkey : List ℕ) (val : Node)
      → Leads p nkey true
      → (r' : Altered) × (delete load d (short nkey val) nkey ≡ ok r')
        × Changes load d p (short nkey val) nkey none r'
  unfolding delete
  delete-whole d p nkey val l =
      let less : ltb (length nkey) (length nkey) ≡ false = ground arith in
      let all : (length nkey == length nkey) ≡ true = ground arith in
      (_, rw (prefix_len_self nkey, less, all) refl, Changes-whole d p nkey val l)

  delete-parts :
      (d : ℕ) (p : Bool) (val : Node) (pre : List ℕ) (i j : ℕ) (nrest rest : List ℕ)
      → i ≢ j
      → IsTrie load d p (short (pre ++ i ∷ nrest) val)
      → (r' : Altered) × (delete load d (short (pre ++ i ∷ nrest) val) (pre ++ j ∷ rest) ≡ ok r')
        × Changes load d p (short (pre ++ i ∷ nrest) val) (pre ++ j ∷ rest) none r'
  unfolding delete
  delete-parts d p val pre i j nrest rest ne t =
      let less : ltb (length pre) (length (pre ++ i ∷ nrest)) ≡ true =
        ground (arith, length-append pre (i ∷ nrest)) in
      let n = short (pre ++ i ∷ nrest) val in
      (
        (false, n),
        rw (prefix_len-parts pre i j nrest rest ne, less) refl,
        Changes-absent d p n (pre ++ j ∷ rest) t (
            content-short_none load d (pre ++ i ∷ nrest) val (pre ++ j ∷ rest)
              (strip-parts pre i j nrest rest ne)),
      )

  -- From a trie, with fuel for the nodes that it loads, `delete` returns.
  pub delete-Changes :
      (d : ℕ) (p : Bool) (n : Node) (key : List ℕ)
      → IsTrie load d p n
      → Leads p key true
      → (r : Altered) × (delete load d n key ≡ ok r) × Changes load d p n key none r
  unfolding delete content
  delete-Changes d p empty key t l = (_, refl, Changes-absent d p empty key t refl)
  delete-Changes d p (value w) [] t l = (_, refl, rw l (Changes-value d (value w)))
  delete-Changes d true (value w) (x ∷ key) t l = elim l [ ]
  delete-Changes d false (value w) (x ∷ key) t l = absurd (cc)
  delete-Changes d p (short nkey val) key t l = elim (meet key nkey) [
    | within rest e ↦ elim (List-cases rest) [
      | inl over ↦
          let all : key ≡ nkey = e ∙ ap (λ r. nkey ++ r) over ∙ append-nil nkey in
          rw all (delete-whole d p nkey val (subst (λ k. Leads p k true) all l))
      | inr (y, r, more) ↦
          let all : key ≡ nkey ++ y ∷ r = e ∙ ap (λ b. nkey ++ b) more in
          let below =
            Leads-rest p t.1.0 true nkey (y ∷ r) t.1.1 (subst (λ k. Leads p k true) all l) in
          let got = delete-Changes d t.1.0 val (y ∷ r) t.1.2 below in
          rw all (delete-within d p nkey val y r t got.0 got.1 got.2)
    ]
    | parts pre i j nrest rest ne e e' ↦
        rw (e, e')
          (delete-parts d p val pre i j nrest rest ne
            (subst (λ k. IsTrie load d p (short k val)) e t))
    | ends i nrest e ↦
        elim (Leads-rest p true t.1.0 key (i ∷ nrest) l (subst (λ k. Leads p k t.1.0) e t.1.1)) [ ]
  ]
  delete-Changes d p (full f) [] t l = absurd (cc (l, t.0))
  delete-Changes d true (full f) (x ∷ key) t l = elim l [ ]
  delete-Changes d false (full f) (x ∷ key) t l =
      let got = delete-Changes d (x == 16) (f x) key (t.1 x l.0) l.1 in
      let next = after_delete-Changes d f x key t got.0 got.2 in (next.0, rw got.1 next.1, next.2)
  delete-Changes zero p (hash h) key t l = elim t [ ]
  delete-Changes (suc d) p (hash h) key t l =
      let got = delete-Changes d p t.0 key t.2 l in
      (
        rebuild (λ nn. nn) t.0 got.0,
        rw (resolve_hash-loaded load h t.0 t.1, got.1) refl,
        Changes-hash load d p h t.0 key none t.1 t.2 got.0 got.2,
      )
