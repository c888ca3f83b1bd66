-- ===== src/Dpos/Context.antt =====
-- core/types/dposcontext.go: the tries of the dpos context and the operations on them.
-- A trie is what its keys hold, decoded: the candidate trie and the vote trie are functions, the
-- delegate trie, whose key is a candidate followed by a delegator, the list of these pairs. A trie
-- that misses nodes is not modelled, so the errors that remain are those of the operations.
use uranus.Prelude.{
  ℕ, Bool, true, false, ◌&&◌, ◌||◌, Option, none, some, List, [], ◌∷◌, ◌==◌, if◌then◌else◌, update,
}
pub use uranus.Prelude.{elem}
use uranus.State.Object.{Address}

pub record CandidateInfo : Type 0 where
  pub addr : Address
  pub weight : ℕ
  pub degrade_time : ℕ

pub record DposContext : Type 0 where
  pub epoch : Option (List Address)
  pub delegates : List (Address × Address)
  pub votes : Address → Option (List Address)
  pub candidates : Address → Option CandidateInfo

pub data DposError : Type 0 where
  already_candidate invalid_candidate decode_failed : DposError

-- The delegate trie: is a pair in it, its insertion and its deletion.
abbrev pub has_delegate : Address → Address → List (Address × Address) → Bool
has_delegate c d [] = false
has_delegate c d ((x, y) ∷ ds) = (c == x && d == y) || has_delegate c d ds

unfoldable pub put_delegate :
    Address → Address → List (Address × Address) → List (Address × Address)
put_delegate c d ds = if has_delegate c d ds then ds else (c, d) ∷ ds

unfoldable pub delete_delegate :
    Address → Address → List (Address × Address) → List (Address × Address)
delete_delegate c d [] = []
delete_delegate c d ((x, y) ∷ ds) =
    let rest = delete_delegate c d ds in if c == x && d == y then rest else (x, y) ∷ rest

-- The values that `PrefixIterator` meets at a candidate.
unfoldable pub delegators : Address → List (Address × Address) → List Address
delegators c [] = []
delegators c ((x, y) ∷ ds) = let rest = delegators c ds in if c == x then y ∷ rest else rest

-- The addresses of a vote but one.
unfoldable pub without : Address → List Address → List Address
without c [] = []
without c (x ∷ xs) = let rest = without c xs in if x == c then rest else x ∷ rest

-- `BecomeCandidate`
unfoldable pub become_candidate : Address → DposContext → Option DposError × DposContext
become_candidate a ctx = elim (ctx.candidates a) [
  | some _ ↦ (some already_candidate, ctx)
  | none ↦
      let info : CandidateInfo = record { addr = a; weight = 100; degrade_time = 0 } in
      (none, record ctx { candidates = update ctx.candidates a (some info) })
]

-- The check of `Delegate` on the candidates.
unfoldable pub all_candidates : List Address → DposContext → Bool
all_candidates [] ctx = true
all_candidates (c ∷ cs) ctx =
    let rest = all_candidates cs ctx in elim (ctx.candidates c) [ none ↦ false | some _ ↦ rest ]

-- The loops over a delegator's candidates.
unfoldable pub delete_all :
    List Address → Address → List (Address × Address) → List (Address × Address)
unfolding delete_delegate
delete_all [] d ds = ds
delete_all (c ∷ cs) d ds = delete_all cs d (delete_delegate c d ds)

unfoldable pub put_all :
    List Address → Address → List (Address × Address) → List (Address × Address)
unfolding put_delegate
put_all [] d ds = ds
put_all (c ∷ cs) d ds = put_all cs d (put_delegate c d ds)

-- The loop over the candidates of an earlier vote, if any.
abbrev pub forget :
    Option (List Address) → Address → List (Address × Address) → List (Address × Address)
forget none d ds = ds
forget (some olds) d ds = delete_all olds d ds

-- `Delegate`
unfoldable pub delegate : Address → List Address → DposContext → Option DposError × DposContext
unfolding all_candidates delete_all put_all
delegate d cs ctx =
    if all_candidates cs ctx
    then (
      none,
      record ctx {
        delegates = put_all cs d (forget (ctx.votes d) d ctx.delegates);
        votes = update ctx.votes d (some cs);
      },
    )
    else (some invalid_candidate, ctx)

-- `UnDelegate`
unfoldable pub undelegate : Address → DposContext → Option DposError × DposContext
unfolding delete_all
undelegate d ctx = elim (ctx.votes d) [
  | none ↦ (none, ctx)
  | some olds ↦ (
    none,
    record ctx { delegates = delete_all olds d ctx.delegates; votes = update ctx.votes d none },
  )
]

-- What is stored of a vote: an empty list is deleted.
abbrev pub stored_vote : List Address → Option (List Address)
stored_vote [] = none
stored_vote (c ∷ cs) = some (c ∷ cs)

-- The loop of `KickoutCandidate` over the delegators of the candidate. A delegator without a vote
-- is an error of the decoding.
unfoldable pub kickout_delegators :
    Address → List Address → DposContext → Option DposError × DposContext
unfolding without delete_delegate
kickout_delegators c [] ctx = (none, ctx)
kickout_delegators c (d ∷ ds) ctx =
    let kept = delete_delegate c d ctx.delegates in
    elim (ctx.votes d) [
      | none ↦ (some decode_failed, record ctx { delegates = kept })
      | some olds ↦ kickout_delegators c ds (record ctx {
        delegates = kept;
        votes = update ctx.votes d (stored_vote (without c olds));
      })
    ]

-- `KickoutCandidate`
unfoldable pub kickout_candidate : Address → DposContext → Option DposError × DposContext
unfolding delegators kickout_delegators
kickout_candidate c ctx = elim (ctx.candidates c) [
  | none ↦ (none, ctx)
  | some _ ↦
      kickout_delegators c (delegators c ctx.delegates)
        (record ctx { candidates = update ctx.candidates c none })
]
