-- ===== src/Mtp/Insert.antt =====
-- common/mtp/trie.go: `insert` returns a trie that holds the value at its key and is unchanged at
-- every other.
use uranus.Prelude.{
  ℕ, zero, suc, ◌≤◌, ◌≡◌, ◌≢◌, refl, sym, ◌∙◌, ap, subst, Bool, true, false, Option, none, some,
  List, [], ◌∷◌, ◌++◌, ◌==◌, if◌then◌else◌, arith, inl, inr, Bool-cases, update, length, drop,
  length-append, ==_iff,
}
use uranus.Mtp.Node.{Node, empty, value, short, full, hash, ok}
use uranus.Mtp.Keys.{same, prefix_len}
use uranus.Mtp.Segments.{
  strip, Leads, strip-cases, Leads-rest, Leads-before, same→eq, same-append, same-strip,
  take-append, drop-append, within, parts, ends, meet, prefix_len-append, prefix_len-parts,
  get_elem?-append, drop-append_suc, Leads-end, strip-nothing, strip-none, strip_more,
  strip-append-append,
}
use uranus.Mtp.Content.{content, IsTrie, content-short, content-short_none}
use uranus.Mtp.Becomes.{
  Becomes, Changes, Becomes-short, Becomes-full, Changes-hash, Changes-rebuild, IsTrie-update,
  Becomes-full_keep,
}
use uranus.Mtp.Get.{resolve_hash-loaded}
use uranus.Mtp.Ops.{Altered, rebuild, insert, insert_new, branch_out}

module _ (load : List ℕ → Option Node) where
  -- At the end of a key the value takes the place of what stood there.
  Becomes-value : (d : ℕ) (n : Node) (v : List ℕ) → Becomes load d true n (value v) [] (some v)
  unfolding content same
  Becomes-value d n v = record { shape = refl; holds = λ k lk. rw (Leads-end k lk) refl }

  -- A key with nothing below it.
  IsTrie-insert_new :
      (d : ℕ) (p q : Bool) (key : List ℕ) (val : Node)
      → Leads p key q
      → IsTrie load d q val
      → IsTrie load d p (insert_new key val)
  unfolding insert_new
  IsTrie-insert_new d p q [] val l t = subst (λ b. IsTrie load d b val) (sym l) t
  IsTrie-insert_new d p q (x ∷ key) val l t = ((λ e. cc), (q, l, t))

  content-insert_new :
      (d : ℕ) (key : List ℕ) (val : Node) (k : List ℕ)
      → content load d (insert_new key val) k ≡ content load d (short key val) k
  unfolding content insert_new strip
  content-insert_new d [] val k = refl
  content-insert_new d (x ∷ key) val k = refl

  content-alone :
      (d : ℕ) (p : Bool) (key v k : List ℕ)
      → Leads p key true
      → Leads p k true
      → content load d (short key (value v)) k ≡ (if same key k then some v else none)
  unfolding content
  content-alone d p key v k l lk = elim (strip-cases key k) [
    | inl e ↦ rw (strip-none key k e) (content-short_none load d key (value v) k e)
    | inr (rest, left, e) ↦
        let over =
          Leads-end rest (Leads-rest p true true key rest l (subst (λ t. Leads p t true) e lk)) in
        let left' : strip key k ≡ some [] = left ∙ ap some over in
        rw (strip-nothing key k left') (rw (content, left') refl)
  ]

  Becomes-new :
      (d : ℕ) (p : Bool) (key v : List ℕ)
      → Leads p key true
      → Becomes load d p empty (insert_new key (value v)) key (some v)
  unfolding content
  Becomes-new d p key v l = record {
    shape = IsTrie-insert_new d p true key (value v) l refl;
    holds = λ k lk. content-insert_new d key (value v) k ∙ content-alone d p key v k l lk;
  }

  -- A branch at the first nibble.
  abbrev branch : ℕ → Node → ℕ → Node → Node
  branch i a j b = full (update (update (λ _. empty) i a) j b)

  content-branch :
      (d i j : ℕ) (nrest rest v : List ℕ) (val : Node)
      → i ≢ j
      → j ≤ 16
      → Leads (j == 16) rest true
      → (k : List ℕ) → Leads false k true
      → content load d (branch i (insert_new nrest val) j (insert_new rest (value v))) k
        ≡ (if same (j ∷ rest) k then some v else content load d (short (i ∷ nrest) val) k)
  unfolding content same strip
  content-branch d i j nrest rest v val ne le l [] lk = absurd (cc)
  content-branch d i j nrest rest v val ne le l (y ∷ k) lk = elim (Bool-cases (j == y)) [
    | inl eq ↦
        let e : j ≡ y = (==_iff j y).0 eq in
        let other : (i == y) ≡ false = ground arith in
        let below : Leads (j == 16) k true = rw e lk.1 in
        let gone : content load d (short (i ∷ nrest) val) (y ∷ k) ≡ none =
          rw (content, other) refl in
        let one = update (λ _. empty) i (insert_new nrest val) in
        let there : update one j (insert_new rest (value v)) y ≡ insert_new rest (value v) =
          rw eq refl in
        ap (λ m. content load d m k) there
        ∙ content-insert_new d rest (value v) k
        ∙ content-alone d (j == 16) rest v k l below
        ∙ (rw (eq, gone) refl)
    | inr jy ↦ elim (Bool-cases (i == y)) [
      | inl iy ↦ rw (content, jy, iy) (content-insert_new d nrest val k)
      | inr iy ↦ rw (content, jy, iy) refl
    ]
  ]

  IsTrie-branch :
      (d i j : ℕ) (a b : Node)
      → IsTrie load d (i == 16) a
      → IsTrie load d (j == 16) b
      → IsTrie load d false (branch i a j b)
  IsTrie-branch d i j a b ta tb = (
    refl,
    IsTrie-update load d (update (λ _. empty) i a) j b
        (IsTrie-update load d (λ _. empty) i a (λ y le. tt) ta) tb,
  )

  -- A longer key of a short node, below a part of it.
  content-short-append :
      (d : ℕ) (a b : List ℕ) (val : Node) (rest : List ℕ)
      → content load d (short (a ++ b) val) (a ++ rest) ≡ content load d (short b val) rest
  unfolding content
  content-short-append d a b val rest = rw (content, strip-append-append a b rest) refl

  -- Below what the two keys share.
  holds-branch :
      (d : ℕ) (p : Bool) (pre : List ℕ) (i j : ℕ) (nrest rest v : List ℕ) (val : Node)
      → i ≢ j
      → Leads p pre false
      → Leads false (j ∷ rest) true
      → (k : List ℕ) → Leads p k true
      → content load d
          (insert_new pre (branch i (insert_new nrest val) j (insert_new rest (value v))))
          k
        ≡ (if same (pre ++ j ∷ rest) k
            then some v
            else content load d (short (pre ++ i ∷ nrest) val) k)
  holds-branch d p pre i j nrest rest v val ne l lj k lk =
      let br = branch i (insert_new nrest val) j (insert_new rest (value v)) in
      content-insert_new d pre br k ∙ elim (strip-cases pre k) [
        | inl e ↦ rw (same-strip pre (j ∷ rest) k e) (
            content-short_none load d pre br k e
            ∙ sym (
                content-short_none load d (pre ++ i ∷ nrest) val k
                  (strip_more pre (i ∷ nrest) k e)))
        | inr (r, left, e) ↦
            let below = Leads-rest p false true pre r l (subst (λ t. Leads p t true) e lk) in
            rw e (
              rw (same-append pre (j ∷ rest) r, content-short-append d pre (i ∷ nrest) val r)
                (content-short load d pre br r
                  ∙ content-branch d i j nrest rest v val ne lj.0 lj.1 r below))
      ]

  -- The node that `branch_out` makes.
  branch_out-parts :
      (pre : List ℕ) (i j : ℕ) (nrest rest v : List ℕ) (val : Node)
      → branch_out (length pre) (pre ++ i ∷ nrest) val (pre ++ j ∷ rest) (value v)
        ≡ ok (insert_new pre (branch i (insert_new nrest val) j (insert_new rest (value v))))
  unfolding branch_out insert_new
  branch_out-parts [] i j nrest rest v val = refl
  branch_out-parts (z ∷ pre) i j nrest rest v val =
      let after : (length (z ∷ pre) == 0) ≡ false = ground arith in
      rw
        (
          get_elem?-append pre i nrest,
          get_elem?-append pre j rest,
          after,
          drop-append_suc (z ∷ pre) i nrest,
          drop-append_suc (z ∷ pre) j rest,
          take-append pre (j ∷ rest),
        )
        refl

  -- At the end of a key.
  insert-end :
      (d : ℕ) (n : Node) (v : List ℕ)
      → IsTrie load d true n
      → (r : Altered) × (insert load d n [] v ≡ ok r) × Changes load d true n [] (some v) r
  unfolding insert
  insert-end d empty v t =
      (_, refl, record { new = Becomes-value d empty v; old = λ e. absurd (cc) })
  insert-end d (value w) v t = (
    _,
    refl,
    record {
      new = Becomes-value d (value w) v;
      old = λ e.
          let eq : same w v ≡ true = ground arith in
          subst (λ u. Becomes load d true (value w) (value u) [] (some v)) (sym (same→eq w v eq))
            (Becomes-value d (value w) v);
    },
  )
  insert-end d (short [] val) v t = absurd (t.0 refl)
  insert-end d (short (x ∷ nkey) val) v t = elim t.1.1 [ ]
  insert-end d (full f) v t = absurd (cc (t.0))
  insert-end zero (hash h) v t = elim t [ ]
  insert-end (suc d) (hash h) v t =
      (_, refl, record { new = Becomes-value (suc d) (hash h) v; old = λ e. absurd (cc) })

  -- The step at a short node, from what happens below it.
  insert-within :
      (d : ℕ) (p : Bool) (nkey : List ℕ) (val : Node) (x : ℕ) (key rest v : List ℕ)
      → (t : IsTrie load d p (short nkey val)) → x ∷ key ≡ nkey ++ rest
      → (r : Altered) → insert load d val rest v ≡ ok r
      → Changes load d t.1.0 val rest (some v) r
      → (r' : Altered) × (insert load d (short nkey val) (x ∷ key) v ≡ ok r')
        × Changes load d p (short nkey val) (x ∷ key) (some v) r'
  unfolding insert
  insert-within d p nkey val x key rest v t e r below h =
      let all : prefix_len (x ∷ key) nkey ≡ length nkey = rw e (prefix_len-append nkey rest) in
      let left : drop (length nkey) (x ∷ key) ≡ rest = rw e (drop-append nkey rest) in
      let test : (length nkey == length nkey) ≡ true = ground arith in
      let put = λ (m : Node). Becomes-short load d p t.1.0 nkey val m rest (some v) t.0 t.1.1 in
      (
        rebuild (short nkey) (short nkey val) r,
        rw (all, test, left, below) refl,
        rw e (
            Changes-rebuild load d p t.1.0 (short nkey val) val (nkey ++ rest) rest (some v)
              (short nkey) put (put val) r h),
      )

  -- The branch is a trie, and the old one with the value at the key.
  Becomes-branch :
      (d : ℕ) (p : Bool) (pre : List ℕ) (i j : ℕ) (nrest rest v : List ℕ) (val : Node)
      → i ≢ j
      → IsTrie load d p (short (pre ++ i ∷ nrest) val)
      → Leads p pre false
      → Leads false (j ∷ rest) true
      → Becomes load d p
          (short (pre ++ i ∷ nrest) val)
          (insert_new pre (branch i (insert_new nrest val) j (insert_new rest (value v))))
          (pre ++ j ∷ rest)
          (some v)
  Becomes-branch d p pre i j nrest rest v val ne t l lj = record {
    shape =
        let li = Leads-rest p false t.1.0 pre (i ∷ nrest) l t.1.1 in
        let a = IsTrie-insert_new d (i == 16) t.1.0 nrest val li.1 t.1.2 in
        let b = IsTrie-insert_new d (j == 16) true rest (value v) lj.1 refl in
        IsTrie-insert_new d p false pre _ l
          (IsTrie-branch d i j (insert_new nrest val) (insert_new rest (value v)) a b);
    holds = holds-branch d p pre i j nrest rest v val ne l lj;
  }

  insert-parts :
      (d : ℕ) (p : Bool) (nkey : List ℕ) (val : Node) (x : ℕ) (key : List ℕ) (v pre : List ℕ)
      (i j : ℕ) (nrest rest : List ℕ)
      → i ≢ j
      → nkey ≡ pre ++ i ∷ nrest
      → x ∷ key ≡ pre ++ j ∷ rest
      → IsTrie load d p (short nkey val)
      → Leads p (x ∷ key) true
      → (r' : Altered) × (insert load d (short nkey val) (x ∷ key) v ≡ ok r')
        × Changes load d p (short nkey val) (x ∷ key) (some v) r'
  unfolding insert
  insert-parts d p nkey val x key v pre i j nrest rest ne e e' t l =
      let lead = subst (λ k. Leads p k true) e' l in
      let both = Leads-before p true pre j rest lead in
      let shown = subst (λ k. IsTrie load d p (short k val)) e t in
      let nn = insert_new pre (branch i (insert_new nrest val) j (insert_new rest (value v))) in
      let len : prefix_len (x ∷ key) nkey ≡ length pre =
        rw (e, e') (prefix_len-parts pre i j nrest rest ne) in
      let off : (length pre == length nkey) ≡ false =
        rw e (ground (arith, length-append pre (i ∷ nrest))) in
      let out : branch_out (length pre) nkey val (x ∷ key) (value v) ≡ ok nn =
        rw (e, e') (branch_out-parts pre i j nrest rest v val) in
      (
        (true, nn),
        rw (len, off, out) refl,
        record {
          new = rw (e, e') (Becomes-branch d p pre i j nrest rest v val ne shown both.0 both.1);
          old = λ e. absurd (cc);
        },
      )

  -- From a trie, with fuel for the nodes that it loads, `insert` returns.
  pub insert-Changes :
      (d : ℕ) (p : Bool) (n : Node) (key v : List ℕ)
      → IsTrie load d p n
      → Leads p key true
      → (r : Altered) × (insert load d n key v ≡ ok r) × Changes load d p n key (some v) r
  unfolding insert insert_new
  insert-Changes d p n [] v t l = rw l (insert-end d n v (subst (λ b. IsTrie load d b n) l t))
  insert-Changes d true n (x ∷ key) v t l = elim l [ ]
  insert-Changes d false empty (x ∷ key) v t l =
      (_, refl, record { new = Becomes-new d false (x ∷ key) v l; old = λ e. absurd (cc) })
  insert-Changes d false (value w) (x ∷ key) v t l = absurd (cc)
  insert-Changes d false (short nkey val) (x ∷ key) v t l = elim (meet (x ∷ key) nkey) [
    | within rest e ↦
        let below =
          Leads-rest false t.1.0 true nkey rest t.1.1 (subst (λ k. Leads false k true) e l) in
        let got = insert-Changes d t.1.0 val rest v t.1.2 below in
        insert-within d false nkey val x key rest v t e got.0 got.1 got.2
    | parts pre i j nrest rest ne e e' ↦
        insert-parts d false nkey val x key v pre i j nrest rest ne e e' t l
    | ends i nrest e ↦
        elim (Leads-rest false true t.1.0 (x ∷ key) (i ∷ nrest) l
          (subst (λ k. Leads false k t.1.0) e t.1.1)) [ ]
  ]
  insert-Changes d false (full f) (x ∷ key) v t l =
      let got = insert-Changes d (x == 16) (f x) key v (t.1 x l.0) l.1 in
      let put = λ (m : Node). Becomes-full load d f x m key (some v) t in
      (
        rebuild (λ nn. full (update f x nn)) (full f) got.0,
        rw got.1 refl,
        Changes-rebuild load d false (x == 16) (full f) (f x) (x ∷ key) key (some v)
            (λ nn. full (update f x nn)) put (Becomes-full_keep load d f x key (some v) t) got.0
            got.2,
      )
  insert-Changes zero false (hash h) (x ∷ key) v t l = elim t [ ]
  insert-Changes (suc d) false (hash h) (x ∷ key) v t l =
      let got = insert-Changes d false t.0 (x ∷ key) v t.2 l in
      (
        rebuild (λ nn. nn) t.0 got.0,
        rw (resolve_hash-loaded load h t.0 t.1, got.1) refl,
        Changes-hash load d false h t.0 (x ∷ key) (some v) t.1 t.2 got.0 got.2,
      )
