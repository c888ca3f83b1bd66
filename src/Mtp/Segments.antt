-- ===== src/Mtp/Segments.antt =====
-- Parts of keys: what is left of a key after a prefix, the side of the terminator that a part leads
-- to, and how `prefix_len` and `same` of common/mtp/util.go see them.
use uranus.Prelude.{
  ℕ, suc, ◌+◌, ◌≤◌, ◌≡◌, ◌≢◌, refl, sym, Bool, true, false, Option, none, some, List, [], ◌∷◌, ◌++◌,
  ◌==◌, if◌then◌else◌, arith, ◌⊎◌, inl, inr, Bool-cases, subst, length, take, drop, get_elem?,
}
use uranus.Mtp.Keys.{same, prefix_len}

-- What is left of a key after a prefix of it.
unfoldable pub strip : List ℕ → List ℕ → Option (List ℕ)
strip [] key = some key
strip (x ∷ nkey) [] = none
strip (x ∷ nkey) (y ∷ key) = if x == y then strip nkey key else none

-- A part of a key that leads from one side of the terminator to the other, or to the same: no
-- nibble follows the terminator.
abbrev pub Leads : Bool → List ℕ → Bool → Type 0
Leads p [] q = p ≡ q
Leads true (x ∷ key) q = ⊥
Leads false (x ∷ key) q = (x ≤ 16) × Leads (x == 16) key q

pub strip-cases :
    (nkey key : List ℕ)
    → (strip nkey key ≡ none)
      ⊎ ((rest : List ℕ) × (strip nkey key ≡ some rest) × (key ≡ nkey ++ rest))
unfolding strip
strip-cases [] key = inr (key, refl, refl)
strip-cases (x ∷ nkey) [] = inl refl
strip-cases (x ∷ nkey) (y ∷ key) = elim (Bool-cases (x == y)) [
  | inr ne ↦ inl (rw ne)
  | inl eq ↦ elim (strip-cases nkey key) [
    | inl gone ↦ inl (rw (eq, gone))
    | inr (rest, left, split) ↦ inr (rest, rw (eq, left), ground (arith, split))
  ]
]

pub strip-append : (nkey rest : List ℕ) → strip nkey (nkey ++ rest) ≡ some rest
unfolding strip
strip-append [] rest = refl
strip-append (x ∷ nkey) rest = ground (arith, strip-append nkey rest)

pub Leads-rest : (p q r : Bool) (a b : List ℕ) → Leads p a q → Leads p (a ++ b) r → Leads q b r
Leads-rest p q r [] b pq l = subst (λ t. Leads t b r) pq l
Leads-rest true q r (x ∷ a) b h l = elim h [ ]
Leads-rest false q r (x ∷ a) b h l = Leads-rest (x == 16) q r a b h.1 l.1

pub Leads-append : (p q r : Bool) (a b : List ℕ) → Leads p a q → Leads q b r → Leads p (a ++ b) r
Leads-append p q r [] b pq l = subst (λ t. Leads t b r) (sym pq) l
Leads-append true q r (x ∷ a) b h l = elim h [ ]
Leads-append false q r (x ∷ a) b h l = (h.0, Leads-append (x == 16) q r a b h.1 l)

-- What stands before another nibble does not reach the terminator.
pub Leads-before :
    (p r : Bool) (pre : List ℕ) (j : ℕ) (rest : List ℕ)
    → Leads p (pre ++ j ∷ rest) r
    → Leads p pre false × Leads false (j ∷ rest) r
Leads-before true r [] j rest l = elim l [ ]
Leads-before false r [] j rest l = (refl, l)
Leads-before true r (x ∷ pre) j rest l = elim l [ ]
Leads-before false r (x ∷ pre) j rest l =
    let below = Leads-before (x == 16) r pre j rest l.1 in ((l.0, below.0), below.1)

pub same_self : (a : List ℕ) → same a a ≡ true
unfolding same
same_self [] = refl
same_self (x ∷ a) = ground (arith, same_self a)

pub same→eq : (a b : List ℕ) → same a b ≡ true → a ≡ b
unfolding same
same→eq [] [] h = refl
same→eq [] (y ∷ b) h = absurd (cc)
same→eq (x ∷ a) [] h = absurd (cc)
same→eq (x ∷ a) (y ∷ b) h = ground (arith, same→eq a b)

-- Below a shared part, keys are the same where their rests are.
pub same-append : (a b c : List ℕ) → same (a ++ b) (a ++ c) ≡ same b c
unfolding same
same-append [] b c = refl
same-append (x ∷ a) b c = ground (arith, same-append a b c)

-- A key with a part that another key does not have is not that key.
pub same-strip : (a b key : List ℕ) → strip a key ≡ none → same (a ++ b) key ≡ false
unfolding same strip
same-strip [] b key h = absurd (cc)
same-strip (x ∷ a) b [] h = refl
same-strip (x ∷ a) b (y ∷ key) h = ground (arith, same-strip a b key)

pub take-append : (a b : List ℕ) → take (length a) (a ++ b) ≡ a
take-append [] b = refl
take-append (x ∷ a) b = rw (take-append a b)

pub drop-append : (a b : List ℕ) → drop (length a) (a ++ b) ≡ b
drop-append [] b = refl
drop-append (x ∷ a) b = drop-append a b

-- The ways in which a key and a short node's key go together: the node's key leads on, the two
-- part at an index, or the key ends within the node's.
pub data Meet (key nkey : List ℕ) : Type 0 where
  within : (rest : List ℕ) → key ≡ nkey ++ rest → Meet key nkey
  parts :
      (pre : List ℕ) (i j : ℕ) (nrest rest : List ℕ)
      → i ≢ j
      → nkey ≡ pre ++ i ∷ nrest
      → key ≡ pre ++ j ∷ rest
      → Meet key nkey
  ends : (i : ℕ) (nrest : List ℕ) → nkey ≡ key ++ i ∷ nrest → Meet key nkey

pub meet : (key nkey : List ℕ) → Meet key nkey
meet key [] = within key refl
meet [] (i ∷ nkey) = ends i nkey refl
meet (j ∷ key) (i ∷ nkey) = elim (Bool-cases (i == j)) [
  | inr ne ↦ parts [] i j nkey key (ground arith) refl refl
  | inl eq ↦ elim (meet key nkey) [
    | within rest e ↦ within rest (ground (arith, e))
    | parts pre i' j' nrest rest ne e e' ↦
        parts (i ∷ pre) i' j' nrest rest ne (ground (arith, e)) (ground (arith, e'))
    | ends i' nrest e ↦ ends i' nrest (ground (arith, e))
  ]
]

pub prefix_len-append : (a b : List ℕ) → prefix_len (a ++ b) a ≡ length a
unfolding prefix_len
prefix_len-append [] [] = refl
prefix_len-append [] (x ∷ b) = refl
prefix_len-append (x ∷ a) b = ground (arith, prefix_len-append a b)

pub prefix_len-parts :
    (pre : List ℕ) (i j : ℕ) (nrest rest : List ℕ)
    → i ≢ j
    → prefix_len (pre ++ j ∷ rest) (pre ++ i ∷ nrest) ≡ length pre
unfolding prefix_len
prefix_len-parts [] i j nrest rest ne = ground arith
prefix_len-parts (x ∷ pre) i j nrest rest ne = ground (arith, prefix_len-parts pre i j nrest rest)

pub get_elem?-append :
    (a : List ℕ) (x : ℕ) (b : List ℕ) → get_elem? (a ++ x ∷ b) (length a) ≡ some x
get_elem?-append [] x b = refl
get_elem?-append (y ∷ a) x b = get_elem?-append a x b

pub drop-append_suc : (a : List ℕ) (x : ℕ) (b : List ℕ) → drop (length a + 1) (a ++ x ∷ b) ≡ b
drop-append_suc [] x b = refl
drop-append_suc (y ∷ a) x b =
    let e : suc (length a) + 1 ≡ suc (length a + 1) = omega arith in rw e (drop-append_suc a x b)

-- At the end of a key nothing is left of it.
pub Leads-end : (key : List ℕ) → Leads true key true → key ≡ []
Leads-end [] l = refl
Leads-end (x ∷ key) l = elim l [ ]

pub strip-nothing : (a key : List ℕ) → strip a key ≡ some [] → same a key ≡ true
unfolding strip same
strip-nothing [] [] h = refl
strip-nothing [] (y ∷ key) h = absurd (cc)
strip-nothing (x ∷ a) [] h = absurd (cc)
strip-nothing (x ∷ a) (y ∷ key) h = ground (arith, strip-nothing a key)

pub strip-none : (a key : List ℕ) → strip a key ≡ none → same a key ≡ false
unfolding strip same
strip-none [] key h = absurd (cc)
strip-none (x ∷ a) [] h = refl
strip-none (x ∷ a) (y ∷ key) h = ground (arith, strip-none a key)

pub strip_more : (a b key : List ℕ) → strip a key ≡ none → strip (a ++ b) key ≡ none
unfolding strip
strip_more [] b key h = absurd (cc)
strip_more (x ∷ a) b [] h = refl
strip_more (x ∷ a) b (y ∷ key) h = ground (arith, strip_more a b key)

pub strip-append-append : (a b c : List ℕ) → strip (a ++ b) (a ++ c) ≡ strip b c
unfolding strip
strip-append-append [] b c = refl
strip-append-append (x ∷ a) b c = ground (arith, strip-append-append a b c)

pub strip-parts :
    (pre : List ℕ) (i j : ℕ) (nrest rest : List ℕ)
    → i ≢ j
    → strip (pre ++ i ∷ nrest) (pre ++ j ∷ rest) ≡ none
unfolding strip
strip-parts [] i j nrest rest ne = ground arith
strip-parts (x ∷ pre) i j nrest rest ne = ground (arith, strip-parts pre i j nrest rest)

pub prefix_len_self : (a : List ℕ) → prefix_len a a ≡ length a
unfolding prefix_len
prefix_len_self [] = refl
prefix_len_self (x ∷ a) = ground (arith, prefix_len_self a)
