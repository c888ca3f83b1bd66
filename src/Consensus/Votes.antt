-- ===== src/Consensus/Votes.antt =====
-- consensus/dpos/epochcontext.go, CountVotes: the votes of the candidates by the locked balances of
-- their delegators. The candidates come in the order in which the candidate trie is walked through;
-- locked balances are not negative.
use uranus.Prelude.{
  ℕ, ◌+◌, ◌*◌, ◌≡◌, refl, ap, ◌∙◌, Option, none, some, List, [], ◌∷◌, map, ltb, leb, ◌==◌,
  if◌then◌else◌, arith,
}
use native.Mathlib.Nat.{zero-add}
use uranus.State.Object.{Address}
use uranus.Dpos.Context.{DposContext, CandidateInfo, delegators}
use uranus.Consensus.Election.{Ballot}

-- What the loop over the delegators adds up: the score of the candidate, of that its own, and the
-- total of all candidates.
pub record Tally : Type 0 where
  pub score : ℕ
  pub selfscore : ℕ
  pub total : ℕ

unfoldable pub tally : (Address → ℕ) → Address → List Address → Tally → Tally
tally locked candidate [] t = t
tally locked candidate (d ∷ ds) t = tally locked candidate ds (record {
  score = t.score + locked d;
  selfscore = if d == candidate then t.selfscore + locked d else t.selfscore;
  total = t.total + locked d;
})

-- The votes of a candidate with delegators: what exceeds its own by more than the limit counts as its
-- own only, and all is multiplied by its weight.
unfoldable pub weigh : Option ℕ → CandidateInfo → Tally → ℕ
weigh none info t = t.score * info.weight
weigh (some min_delegate) info t =
    (if ltb (t.selfscore + min_delegate) t.score then t.selfscore else t.score) * info.weight

-- The loop over the candidates, with the total so far.
unfoldable pub count_from :
    Option ℕ → (Address → ℕ) → List (Address × Address) → List CandidateInfo → ℕ → List Ballot × ℕ
unfolding tally weigh
count_from min_delegate locked delegates [] total = ([], total)
count_from min_delegate locked delegates (info ∷ infos) total =
    let ds = delegators info.addr delegates in
    let t = tally locked info.addr ds (record { score = 0; selfscore = 0; total = total }) in
    let votes : ℕ = elim ds [ [] ↦ 0 | d ∷ r ↦ weigh min_delegate info t ] in
    let (rest, total') = count_from min_delegate locked delegates infos t.total in
    ((info.addr, votes) ∷ rest, total')

-- `CountVotes`; none is the error where there are no candidates.
unfoldable pub count_votes :
    Option ℕ → (Address → ℕ) → List CandidateInfo → DposContext → Option (List Ballot × ℕ)
unfolding count_from
count_votes min_delegate locked [] ctx = none
count_votes min_delegate locked (info ∷ infos) ctx =
    some (count_from min_delegate locked ctx.delegates (info ∷ infos) 0)

-- The locked balances of some delegators together, and the share of one of them.
abbrev pub locked_sum : (Address → ℕ) → List Address → ℕ
locked_sum locked [] = 0
locked_sum locked (d ∷ ds) = locked d + locked_sum locked ds

abbrev pub own_sum : (Address → ℕ) → Address → List Address → ℕ
own_sum locked candidate [] = 0
own_sum locked candidate (d ∷ ds) =
    (if d == candidate then locked d else 0) + own_sum locked candidate ds

-- The votes that a candidate should have.
abbrev pub votes_of : Option ℕ → ℕ → ℕ → ℕ → ℕ
votes_of none own all weight = all * weight
votes_of (some min_delegate) own all weight =
    (if leb all (own + min_delegate) then all else own) * weight

abbrev pub ballot_of : Option ℕ → (Address → ℕ) → List (Address × Address) → CandidateInfo → Ballot
ballot_of min_delegate locked delegates info =
    let ds = delegators info.addr delegates in
    (
      info.addr,
      votes_of min_delegate (own_sum locked info.addr ds) (locked_sum locked ds) info.weight,
    )

-- What all pairs of a candidate and a delegator have locked.
abbrev pub locked_total : (Address → ℕ) → List (Address × Address) → List CandidateInfo → ℕ
locked_total locked delegates [] = 0
locked_total locked delegates (info ∷ infos) =
    locked_sum locked (delegators info.addr delegates) + locked_total locked delegates infos

tally-sums :
    (locked : Address → ℕ) (c : Address) (ds : List Address) (t : Tally)
    → ((tally locked c ds t).score ≡ t.score + locked_sum locked ds)
      × ((tally locked c ds t).selfscore ≡ t.selfscore + own_sum locked c ds)
      × ((tally locked c ds t).total ≡ t.total + locked_sum locked ds)
unfolding tally
tally-sums locked c [] t = (omega arith, omega arith, omega arith)
tally-sums locked c (d ∷ ds) t =
    let next : Tally = record {
      score = t.score + locked d;
      selfscore = if d == c then t.selfscore + locked d else t.selfscore;
      total = t.total + locked d;
    } in
    let rest = tally-sums locked c ds next in
    (omega (arith, rest.0), ground (arith, rest.1), omega (arith, rest.2))

share-either :
    (own all m : ℕ)
    → (if ltb (own + m) all then own else all) ≡ (if leb all (own + m) then all else own)
share-either own all m = ground arith

-- The votes of one candidate, with delegators and without.
votes-found :
    (min_delegate : Option ℕ) (locked : Address → ℕ) (info : CandidateInfo) (ds : List Address)
    (total : ℕ)
    → (elim ds as (λ _. ℕ) [
      | [] ↦ 0
      | d ∷ r ↦
          weigh min_delegate info
            (tally locked info.addr ds (record { score = 0; selfscore = 0; total = total }))
    ])
      ≡ votes_of min_delegate (own_sum locked info.addr ds) (locked_sum locked ds) info.weight
unfolding weigh
votes-found none locked info [] total = omega arith
votes-found (some m) locked info [] total = ground arith
votes-found none locked info (d ∷ ds) total =
    let t = tally locked info.addr (d ∷ ds) (record { score = 0; selfscore = 0; total = total }) in
    let sums =
      tally-sums locked info.addr (d ∷ ds) (record { score = 0; selfscore = 0; total = total }) in
    let all : t.score ≡ locked_sum locked (d ∷ ds) = omega (arith, sums.0) in rw all refl
votes-found (some m) locked info (d ∷ ds) total =
    let t = tally locked info.addr (d ∷ ds) (record { score = 0; selfscore = 0; total = total }) in
    let sums =
      tally-sums locked info.addr (d ∷ ds) (record { score = 0; selfscore = 0; total = total }) in
    let all : t.score ≡ locked_sum locked (d ∷ ds) = omega (arith, sums.0) in
    let own : t.selfscore ≡ own_sum locked info.addr (d ∷ ds) = sums.1 ∙ zero-add _ in
    rw (all, own)
      (ap (λ n. n * info.weight)
        (share-either (own_sum locked info.addr (d ∷ ds)) (locked_sum locked (d ∷ ds)) m))

count_from-sums :
    (min_delegate : Option ℕ) (locked : Address → ℕ) (delegates : List (Address × Address))
    (infos : List CandidateInfo) (total : ℕ)
    → count_from min_delegate locked delegates infos total ≡ (
      map (ballot_of min_delegate locked delegates) infos,
      total + locked_total locked delegates infos,
    )
unfolding count_from
count_from-sums min_delegate locked delegates [] total =
    let e : total ≡ total + 0 = omega arith in λ i. ([], e i)
count_from-sums min_delegate locked delegates (info ∷ infos) total =
    let ds = delegators info.addr delegates in
    let t = tally locked info.addr ds (record { score = 0; selfscore = 0; total = total }) in
    let sums =
      tally-sums locked info.addr ds (record { score = 0; selfscore = 0; total = total }) in
    let votes = votes-found min_delegate locked info ds total in
    let rest = count_from-sums min_delegate locked delegates infos t.total in
    let totals : t.total + locked_total locked delegates infos
        ≡ total + (locked_sum locked ds + locked_total locked delegates infos) =
      omega (arith, sums.2) in
    let last = ap (λ (r : List Ballot × ℕ). r.1) rest ∙ totals in
    λ i. ((info.addr, votes i) ∷ (rest i).0, last i)

-- The votes of the candidates and the total, where there is a candidate.
abbrev pub votes_and_total :
    Option ℕ
    → (Address → ℕ)
    → List (Address × Address)
    → List CandidateInfo
    → Option (List Ballot × ℕ)
votes_and_total min_delegate locked delegates [] = none
votes_and_total min_delegate locked delegates (info ∷ infos) = some (
  map (ballot_of min_delegate locked delegates) (info ∷ infos),
  locked_total locked delegates (info ∷ infos),
)

-- CountVotes gives each candidate the sum of what its delegators have locked, or what it has
-- locked for itself where the sum exceeds that by more than the limit, times its weight; the total
-- is what all pairs of a candidate and a delegator have locked; without candidates it fails.
pub count_votes-votes_and_total :
    (min_delegate : Option ℕ) (locked : Address → ℕ) (infos : List CandidateInfo)
    (ctx : DposContext)
    → count_votes min_delegate locked infos ctx
      ≡ votes_and_total min_delegate locked ctx.delegates infos
unfolding count_votes
count_votes-votes_and_total min_delegate locked [] ctx = refl
count_votes-votes_and_total min_delegate locked (info ∷ infos) ctx =
    let all = count_from-sums min_delegate locked ctx.delegates (info ∷ infos) 0 in
    let plain : 0 + locked_total locked ctx.delegates (info ∷ infos)
        ≡ locked_total locked ctx.delegates (info ∷ infos) =
      omega arith in
    ap some all
    ∙ ap (λ n. some (map (ballot_of min_delegate locked ctx.delegates) (info ∷ infos), n)) plain
