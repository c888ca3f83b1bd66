-- ===== src/Consensus/Elected.antt =====
-- consensus/dpos/epochcontext.go, tryElect: who is elected. The validators of an epoch are candidates
-- with the most votes, in an order that the shuffle chooses.
use uranus.Prelude.{
  ℕ, zero, suc, ◌+◌, ◌-◌, ◌≤◌, ◌≡◌, refl, sym, ap, ◌∙◌, subst, Bool, true, false, ◌||◌, none, some,
  List, [], ◌∷◌, ◌++◌, length, take, drop, set, get_elem?, ltb, leb, if◌then◌else◌, arith, inl, inr,
  Bool-cases, Option-cases, All, All-mono, All-append_right, take-append-drop, length-take,
}
use uranus.State.Object.{Address}
use uranus.Consensus.Schedule.{DposOption, consensus_size}
use uranus.Consensus.Election.{Ballot, less, insert_ballot, sort_ballots, swap, shuffle, elect}

-- How many ballots pass a test.
abbrev pub count_if : (Ballot → Bool) → List Ballot → ℕ
count_if p [] = 0
count_if p (b ∷ ballots) = (if p b then 1 else 0) + count_if p ballots

count_if-append :
    (p : Ballot → Bool) (xs ys : List Ballot)
    → count_if p (xs ++ ys) ≡ count_if p xs + count_if p ys
count_if-append p [] ys = omega arith
count_if-append p (x ∷ xs) ys = omega (arith, count_if-append p xs ys)

count_if-set :
    (p : Ballot → Bool) (xs : List Ballot) (i : ℕ) (b c : Ballot)
    → get_elem? xs i ≡ some b
    → count_if p (set xs i c) + (if p b then 1 else 0) ≡ count_if p xs + (if p c then 1 else 0)
count_if-set p [] i b c e = absurd (cc)
count_if-set p (x ∷ xs) zero b c e = let same : x ≡ b = cc in rw same (omega arith)
count_if-set p (x ∷ xs) (suc i) b c e = omega (arith, count_if-set p xs i b c e)

get_elem?-set :
    (xs : List Ballot) (i j : ℕ) (b c : Ballot)
    → get_elem? xs i ≡ some b
    → get_elem? xs j ≡ some c
    → get_elem? (set xs i c) j ≡ some c
get_elem?-set [] i j b c e f = absurd (cc)
get_elem?-set (x ∷ xs) zero zero b c e f = refl
get_elem?-set (x ∷ xs) zero (suc j) b c e f = f
get_elem?-set (x ∷ xs) (suc i) zero b c e f = f
get_elem?-set (x ∷ xs) (suc i) (suc j) b c e f = get_elem?-set xs i j b c e f

count_if-swap :
    (p : Ballot → Bool) (i j : ℕ) (xs : List Ballot) → count_if p (swap i j xs) ≡ count_if p xs
unfolding swap
count_if-swap p i j xs = elim (Option-cases (get_elem? xs i)) [
  | inl e ↦ rw (swap, e) refl
  | inr (b, e) ↦ elim (Option-cases (get_elem? xs j)) [
    | inl f ↦ rw (swap, e, f) refl
    | inr (c, f) ↦
        rw (swap, e, f)
          (omega (
            arith,
            count_if-set p xs i b c e,
            count_if-set p (set xs i c) j c b (get_elem?-set xs i j b c e f),
          ))
  ]
]

count_if-shuffle :
    (p : Ballot → Bool) (draw : ℕ → ℕ) (i : ℕ) (xs : List Ballot)
    → count_if p (shuffle draw i xs) ≡ count_if p xs
unfolding shuffle
count_if-shuffle p draw zero xs = refl
count_if-shuffle p draw (suc i) xs =
    count_if-shuffle p draw i (swap (suc i) (draw (suc i)) xs)
    ∙ count_if-swap p (suc i) (draw (suc i)) xs

-- In a sorted list the votes fall.
abbrev pub HasNoMore : ℕ → Ballot → Type 0
HasNoMore n b = b.1 ≤ n

abbrev IsSorted : List Ballot → Type 0
IsSorted [] = Unit
IsSorted (b ∷ ballots) = All (HasNoMore b.1) ballots × IsSorted ballots

module _ (tie : Address → Address → Bool) where
  less-le : (p q : Ballot) → less tie p q ≡ true → q.1 ≤ p.1
  unfolding less
  less-le p q h = ground arith

  not_less-le : (p q : Ballot) → less tie p q ≡ false → p.1 ≤ q.1
  unfolding less
  not_less-le p q h = ground arith

  All-insert_ballot :
      (n : ℕ) (b : Ballot) (xs : List Ballot)
      → b.1 ≤ n
      → All (HasNoMore n) xs
      → All (HasNoMore n) (insert_ballot tie b xs)
  unfolding insert_ballot
  All-insert_ballot n b [] le h = (le, tt)
  All-insert_ballot n b (c ∷ xs) le h = elim (Bool-cases (less tie b c)) [
    | inl e ↦ rw e (le, h)
    | inr e ↦ rw e (h.0, All-insert_ballot n b xs le h.1)
  ]

  insert_ballot-IsSorted :
      (b : Ballot) (xs : List Ballot) → IsSorted xs → IsSorted (insert_ballot tie b xs)
  unfolding insert_ballot
  insert_ballot-IsSorted b [] s = (tt, tt)
  insert_ballot-IsSorted b (c ∷ xs) s = elim (Bool-cases (less tie b c)) [
    | inl e ↦
        let le = less-le b c e in
        rw e ((le, All-mono (HasNoMore c.1) (HasNoMore b.1) xs (λ x l. omega arith) s.0), s)
    | inr e ↦
        rw e (All-insert_ballot c.1 b xs (not_less-le b c e) s.0, insert_ballot-IsSorted b xs s.1)
  ]

  sort_ballots-IsSorted : (xs : List Ballot) → IsSorted (sort_ballots tie xs)
  unfolding sort_ballots
  sort_ballots-IsSorted [] = tt
  sort_ballots-IsSorted (b ∷ xs) =
      insert_ballot-IsSorted b (sort_ballots tie xs) (sort_ballots-IsSorted xs)

  count_if-insert_ballot :
      (p : Ballot → Bool) (b : Ballot) (xs : List Ballot)
      → count_if p (insert_ballot tie b xs) ≡ (if p b then 1 else 0) + count_if p xs
  unfolding insert_ballot
  count_if-insert_ballot p b [] = refl
  count_if-insert_ballot p b (c ∷ xs) = elim (Bool-cases (less tie b c)) [
    | inl e ↦ rw e refl
    | inr e ↦ rw e (omega (arith, count_if-insert_ballot p b xs))
  ]

  count_if-sort_ballots :
      (p : Ballot → Bool) (xs : List Ballot) → count_if p (sort_ballots tie xs) ≡ count_if p xs
  unfolding sort_ballots
  count_if-sort_ballots p [] = refl
  count_if-sort_ballots p (b ∷ xs) =
      omega (arith, count_if-insert_ballot p b (sort_ballots tie xs), count_if-sort_ballots p xs)

count_if-all : (xs : List Ballot) → count_if (λ _. true) xs ≡ length xs
count_if-all [] = refl
count_if-all (x ∷ xs) = omega (arith, count_if-all xs)

-- What holds of all ballots holds of all after the shuffle.
All-get_elem? :
    (P : Ballot → Type 0) (xs : List Ballot) (i : ℕ) (b : Ballot)
    → All P xs
    → get_elem? xs i ≡ some b
    → P b
All-get_elem? P [] i b h e = absurd (cc)
All-get_elem? P (x ∷ xs) zero b h e = let same : x ≡ b = cc in subst P same h.0
All-get_elem? P (x ∷ xs) (suc i) b h e = All-get_elem? P xs i b h.1 e

All-set :
    (P : Ballot → Type 0) (xs : List Ballot) (i : ℕ) (b : Ballot)
    → All P xs
    → P b
    → All P (set xs i b)
All-set P [] i b h pb = tt
All-set P (x ∷ xs) zero b h pb = (pb, h.1)
All-set P (x ∷ xs) (suc i) b h pb = (h.0, All-set P xs i b h.1 pb)

All-swap : (P : Ballot → Type 0) (i j : ℕ) (xs : List Ballot) → All P xs → All P (swap i j xs)
unfolding swap
All-swap P i j xs h = elim (Option-cases (get_elem? xs i)) [
  | inl e ↦ rw (swap, e) h
  | inr (b, e) ↦ elim (Option-cases (get_elem? xs j)) [
    | inl f ↦ rw (swap, e, f) h
    | inr (c, f) ↦
        rw (swap, e, f)
          (All-set P (set xs i c) j b (All-set P xs i c h (All-get_elem? P xs j c h f))
            (All-get_elem? P xs i b h e))
  ]
]

All-shuffle :
    (P : Ballot → Type 0) (draw : ℕ → ℕ) (i : ℕ) (xs : List Ballot)
    → All P xs
    → All P (shuffle draw i xs)
unfolding shuffle
All-shuffle P draw zero xs h = h
All-shuffle P draw (suc i) xs h =
    All-shuffle P draw i (swap (suc i) (draw (suc i)) xs) (All-swap P (suc i) (draw (suc i)) xs h)

IsSorted-append : (xs ys : List Ballot) → IsSorted (xs ++ ys) → All (λ b. All (HasNoMore b.1) ys) xs
IsSorted-append [] ys s = tt
IsSorted-append (x ∷ xs) ys s =
    (All-append_right (HasNoMore x.1) xs ys s.0, IsSorted-append xs ys s.1)

-- The elected and the others are together the ballots, and no other has more votes than an elected one.
pub record Elects (opt : DposOption) (votes : List Ballot) (total : ℕ) (elected : List Ballot)
    : Type 0 where
  pub left_out : List Ballot
  pub split : (p : Ballot → Bool) → count_if p elected + count_if p left_out ≡ count_if p votes
  pub most_votes : All (λ b. All (HasNoMore b.1) left_out) elected
  pub size :
      length elected
      ≡ (if leb (length votes) opt.max_validator_size then length votes else opt.max_validator_size)
  pub enough_candidates : consensus_size opt ≤ length votes
  pub enough_votes : opt.min_start_quantity ≤ total

-- When a round of tryElect changes the validators, there were at least as many candidates as the
-- consensus size and at least the least total of votes; the elected and the others are together
-- the candidates with their votes, nobody lost or doubled by the shuffle; no other has more votes
-- than an elected one; and all candidates are elected, or as many as the largest number of
-- validators where there are more.
pub elect-Elects :
    (tie : Address → Address → Bool) (draw : ℕ → ℕ) (opt : DposOption) (votes : List Ballot)
    (total : ℕ) (elected : List Ballot)
    → elect tie draw opt votes total ≡ some elected
    → Elects opt votes total elected
unfolding elect
elect-Elects tie draw opt votes total elected e =
    let few = ltb (length votes) (consensus_size opt) || ltb total opt.min_start_quantity in
    let sorted = sort_ballots tie votes in
    let n = opt.max_validator_size in
    let top = take n sorted in
    elim (Bool-cases few) [
      | inl idle ↦ let no : none ≡ some elected = rw (elect, idle) at e in absurd (cc)
      | inr active ↦
          let chosen : some (shuffle draw (length top - 1) top) ≡ some elected =
            rw (elect, active) at e in
          let it : shuffle draw (length top - 1) top ≡ elected = cc in
          let count = λ (p : Ballot → Bool).
            ap (count_if p) (sym it) ∙ count_if-shuffle p draw (length top - 1) top in
          let whole : top ++ drop n sorted ≡ sorted = take-append-drop n sorted in
          let same_length : length sorted ≡ length votes =
            sym (count_if-all sorted)
            ∙ count_if-sort_ballots tie (λ _. true) votes
            ∙ count_if-all votes in
          record {
            left_out = drop n sorted;
            split = λ p.
                ap (λ k. k + count_if p (drop n sorted)) (count p)
                ∙ sym (count_if-append p top (drop n sorted))
                ∙ ap (count_if p) whole
                ∙ count_if-sort_ballots tie p votes;
            most_votes = subst (All (λ b. All (HasNoMore b.1) (drop n sorted))) it (
                All-shuffle (λ b. All (HasNoMore b.1) (drop n sorted)) draw (length top - 1) top
                  (IsSorted-append top (drop n sorted)
                    (subst IsSorted (sym whole) (sort_ballots-IsSorted tie votes))));
            size =
                let taken : length elected ≡ length top =
                  sym (count_if-all elected) ∙ count (λ _. true) ∙ count_if-all top in
                ground (arith, length-take n sorted);
            enough_candidates = ground arith;
            enough_votes = ground arith;
          }
    ]
