-- ===== src/Consensus/Election.antt =====
-- consensus/dpos/epochcontext.go, tryElect: the choice of the validators of an epoch from the votes.
-- The order of two addresses of equal votes and the random numbers of the shuffle are parameters.
use uranus.Prelude.{
  ℕ, zero, suc, ◌-◌, Bool, true, false, ◌||◌, Option, none, some, List, [], ◌∷◌, length, take, set,
  get_elem?, ltb, if◌then◌else◌,
}
use uranus.State.Object.{Address}
use uranus.Consensus.Schedule.{DposOption, consensus_size}

-- A candidate and its votes.
abbrev pub Ballot : Type 0
Ballot = Address × ℕ

module _ (tie : Address → Address → Bool) where
  -- `Less` of sortableAddresses: more votes come first.
  unfoldable pub less : Ballot → Ballot → Bool
  less p q = if ltb p.1 q.1 then false else if ltb q.1 p.1 then true else tie p.0 q.0

  -- `sort.Sort(candidates)`
  unfoldable pub insert_ballot : Ballot → List Ballot → List Ballot
  unfolding less
  insert_ballot b [] = b ∷ []
  insert_ballot b (c ∷ ballots) =
      let rest = insert_ballot b ballots in if less b c then b ∷ c ∷ ballots else c ∷ rest

  unfoldable pub sort_ballots : List Ballot → List Ballot
  unfolding insert_ballot
  sort_ballots [] = []
  sort_ballots (b ∷ ballots) = insert_ballot b (sort_ballots ballots)

-- `candidates[i], candidates[j] = candidates[j], candidates[i]`; an index out of range, which would
-- panic, changes nothing here.
unfoldable pub swap : ℕ → ℕ → List Ballot → List Ballot
swap i j ballots = elim (get_elem? ballots i) [
  | none ↦ ballots
  | some b ↦ elim (get_elem? ballots j) [ none ↦ ballots | some c ↦ set (set ballots i c) j b ]
]

-- The shuffle from an index down to 1, with the number drawn at each.
unfoldable pub shuffle : (ℕ → ℕ) → ℕ → List Ballot → List Ballot
unfolding swap
shuffle draw zero ballots = ballots
shuffle draw (suc i) ballots = shuffle draw i (swap (suc i) (draw (suc i)) ballots)

-- The round of `tryElect` after the votes are counted: none where dpos is not activated.
unfoldable pub elect :
    (Address → Address → Bool) → (ℕ → ℕ) → DposOption → List Ballot → ℕ → Option (List Ballot)
unfolding consensus_size sort_ballots shuffle
elect tie draw opt votes total =
    let candidates = take opt.max_validator_size (sort_ballots tie votes) in
    if ltb (length votes) (consensus_size opt) || ltb total opt.min_start_quantity
    then none
    else some (shuffle draw (length candidates - 1) candidates)
