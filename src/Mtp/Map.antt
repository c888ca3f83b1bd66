-- ===== src/Mtp/Map.antt =====
-- common/mtp/trie.go: a trie is a map from keys to values. `TryGet`, `TryUpdate` and `TryDelete` in
-- any sequence answer as a map does, and each of them returns.
use uranus.Prelude.{
  ℕ, ◌/◌, ◌%◌, ◌<◌, ◌≡◌, refl, sym, ◌∙◌, fun_ext, subst, true, false, Option, none, some, List, [],
  ◌∷◌, ◌==◌, if◌then◌else◌, arith, inl, inr, Bool-cases, length, All,
}
use uranus.Mtp.Node.{Node, Result, ok, ◌>>=◌}
use uranus.Mtp.Keys.{same, keybytes_to_hex}
use uranus.Mtp.Segments.{Leads, same→eq}
use uranus.Mtp.Content.{content, IsTrie}
use uranus.Mtp.Becomes.{Becomes}
use uranus.Mtp.Get.{try_get-Finds}
use uranus.Mtp.Insert.{insert-Changes}
use uranus.Mtp.Delete.{delete-Changes}
use uranus.Mtp.Ops.{try_get_key, try_update, try_delete}

abbrev pub IsBytes : List ℕ → Type 0
IsBytes key = All (λ b. b < 256) key

-- A key of bytes reaches the terminator.
hex-Leads : (key : List ℕ) → IsBytes key → Leads false (keybytes_to_hex key) true
unfolding keybytes_to_hex
hex-Leads [] h = (omega arith, refl)
hex-Leads (b ∷ key) h =
    let hi : (b / 16 == 16) ≡ false = ground (arith, h.0) in
    let lo : (b % 16 == 16) ≡ false = ground arith in
    let rest = hex-Leads key h.1 in
    let after = subst (λ q. Leads q (keybytes_to_hex key) true) (sym lo) rest in
    (
      omega (arith, h.0),
      subst (λ q. Leads q ((b % 16) ∷ keybytes_to_hex key) true) (sym hi) (omega arith, after),
    )

-- Two keys have the same nibbles where they are the same.
same-hex : (a b : List ℕ) → same (keybytes_to_hex a) (keybytes_to_hex b) ≡ same a b
unfolding same keybytes_to_hex
same-hex [] [] = refl
same-hex [] (y ∷ []) = ground arith
same-hex [] (y ∷ z ∷ b) = ground arith
same-hex (x ∷ a) [] = ground arith
same-hex (x ∷ a) (y ∷ b) = ground (arith, same-hex a b)

-- The abstract view: a map, in which an empty value is no value.
abbrev pub TrieMap : Type 0
TrieMap = List ℕ → Option (List ℕ)

abbrev pub put : TrieMap → List ℕ → Option (List ℕ) → TrieMap
put m key w = λ k. if same key k then w else m k

put_same : (m : TrieMap) (key : List ℕ) → put m key (m key) ≡ m
put_same m key = fun_ext λ k. elim (Bool-cases (same key k)) [
  | inl eq ↦ rw (eq, same→eq key k eq) refl
  | inr ne ↦ rw ne refl
]

abbrev pub stored : List ℕ → Option (List ℕ)
stored v = if length v == 0 then none else some v

pub data TrieOp : Type 0 where
  get : List ℕ → TrieOp
  upd : List ℕ → List ℕ → TrieOp
  del : List ℕ → TrieOp

abbrev pub key_of : TrieOp → List ℕ
key_of (get key) = key
key_of (upd key v) = key
key_of (del key) = key

-- What a map answers to a sequence of operations, one answer for each `get`.
abbrev pub map_answers : TrieMap → List TrieOp → List (Option (List ℕ))
map_answers m [] = []
map_answers m (get key ∷ ops) = m key ∷ map_answers m ops
map_answers m (upd key v ∷ ops) = map_answers (put m key (stored v)) ops
map_answers m (del key ∷ ops) = map_answers (put m key none) ops

module _ (load : List ℕ → Option Node) where
  -- The same sequence on a trie, each operation with the root that the one before it left.
  unfoldable pub trie_answers : ℕ → Node → List TrieOp → Result (List (Option (List ℕ)))
  trie_answers d root [] = ok []
  trie_answers d root (get key ∷ ops) =
      try_get_key load d root key >>= λ r. trie_answers d r.1 ops >>= λ rest. ok (r.0 ∷ rest)
  trie_answers d root (upd key v ∷ ops) =
      try_update load d root key v >>= λ next. trie_answers d next ops
  trie_answers d root (del key ∷ ops) =
      try_delete load d root key >>= λ next. trie_answers d next ops

  -- The root is that of a trie, and holds what the map holds.
  pub record Represents (d : ℕ) (root : Node) (m : TrieMap) : Type 0 where
    pub shape : IsTrie load d false root
    pub holds : (key : List ℕ) → IsBytes key → content load d root (keybytes_to_hex key) ≡ m key

  Represents-Becomes :
      (d : ℕ) (root n : Node) (m : TrieMap) (key : List ℕ) (w : Option (List ℕ))
      → Represents d root m
      → Becomes load d false root n (keybytes_to_hex key) w
      → Represents d n (put m key w)
  Represents-Becomes d root n m key w r b = record {
    shape = b.shape;
    holds = λ k hk.
        b.holds (keybytes_to_hex k) (hex-Leads k hk) ∙ (rw (same-hex key k, r.holds k hk) refl);
  }

  pub try_update-Represents :
      (d : ℕ) (root : Node) (m : TrieMap) (key v : List ℕ)
      → IsBytes key
      → Represents d root m
      → (n : Node) × (try_update load d root key v ≡ ok n) × Represents d n (put m key (stored v))
  unfolding try_update
  try_update-Represents d root m key v hk r = elim (Bool-cases (length v == 0)) [
    | inl nil ↦
        let got =
          delete-Changes load d false root (keybytes_to_hex key) r.shape (hex-Leads key hk) in
        (
          got.0.1,
          rw (nil, got.1) refl,
          rw nil (Represents-Becomes d root got.0.1 m key none r got.2.new),
        )
    | inr more ↦
        let got =
          insert-Changes load d false root (keybytes_to_hex key) v r.shape (hex-Leads key hk) in
        (
          got.0.1,
          rw (more, got.1) refl,
          rw more (Represents-Becomes d root got.0.1 m key (some v) r got.2.new),
        )
  ]

  pub try_delete-Represents :
      (d : ℕ) (root : Node) (m : TrieMap) (key : List ℕ)
      → IsBytes key
      → Represents d root m
      → (n : Node) × (try_delete load d root key ≡ ok n) × Represents d n (put m key none)
  unfolding try_delete
  try_delete-Represents d root m key hk r =
      let got = delete-Changes load d false root (keybytes_to_hex key) r.shape (hex-Leads key hk) in
      (got.0.1, rw got.1 refl, Represents-Becomes d root got.0.1 m key none r got.2.new)

  pub try_get_key-Represents :
      (d : ℕ) (root : Node) (m : TrieMap) (key : List ℕ)
      → IsBytes key
      → Represents d root m
      → (n : Node) × (try_get_key load d root key ≡ ok (m key, n)) × Represents d n m
  unfolding try_get_key
  try_get_key-Represents d root m key hk r =
      let got = try_get-Finds load d false root (keybytes_to_hex key) r.shape (hex-Leads key hk) in
      let e : got.0.found ≡ m key = got.2.value_found ∙ r.holds key hk in
      elim (Bool-cases got.0.resolved) [
        | inr kept ↦ (root, rw (got.1, kept, e) refl, r)
        | inl grown ↦ (
          got.0.node,
          rw (got.1, grown, e) refl,
          subst (Represents d got.0.node) (put_same m key) (
              Represents-Becomes d root got.0.node m key (m key) r (
                subst (Becomes load d false root got.0.node (keybytes_to_hex key)) (r.holds key hk)
                  got.2.node_alike)),
        )
      ]

  -- A trie that represents a map from byte keys to values answers any sequence of TryGet,
  -- TryUpdate and TryDelete on byte keys as that map does, an update with an empty value counting
  -- as a deletion; every operation returns without an error, given that the hashes in the trie
  -- load, no more than the fuel of them one below another.
  pub trie_answers-map_answers :
      (d : ℕ) (root : Node) (m : TrieMap) (ops : List TrieOp)
      → Represents d root m
      → All (λ op. IsBytes (key_of op)) ops
      → trie_answers d root ops ≡ ok (map_answers m ops)
  unfolding trie_answers
  trie_answers-map_answers d root m [] r h = refl
  trie_answers-map_answers d root m (get key ∷ ops) r h =
      let got = try_get_key-Represents d root m key h.0 r in
      rw (got.1, trie_answers-map_answers d got.0 m ops got.2 h.1) refl
  trie_answers-map_answers d root m (upd key v ∷ ops) r h =
      let got = try_update-Represents d root m key v h.0 r in
      rw got.1 (trie_answers-map_answers d got.0 (put m key (stored v)) ops got.2 h.1)
  trie_answers-map_answers d root m (del key ∷ ops) r h =
      let got = try_delete-Represents d root m key h.0 r in
      rw got.1 (trie_answers-map_answers d got.0 (put m key none) ops got.2 h.1)
