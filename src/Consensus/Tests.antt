-- ===== src/Consensus/Tests.antt =====
-- Three validators with short epochs, and the theorems about the consensus applied to them.
use uranus.Prelude.{
  ◌+◌, ◌*◌, ◌<◌, ◌≡◌, refl, none, some, List, [], ◌∷◌, ltb, if◌then◌else◌, arith, update,
}
use uranus.State.Object.{Address}
use uranus.Dpos.Context.{DposContext, CandidateInfo, delegators}
use uranus.Consensus.Schedule.{DposOption, epoch_interval, lookup_validator, lookup_validator-turn}
use uranus.Consensus.Irreversible.{irreversible_height, reaching, irreversible_height-reaching}
use uranus.Consensus.Confirmed.{Header}
use uranus.Consensus.Weights.{kickout_validator, IsWeighted, Reweighed, kickout_validator-Reweighed}
use uranus.Consensus.Election.{Ballot, elect, sort_ballots, shuffle}
use uranus.Consensus.Elected.{Elects, elect-Elects}
use uranus.Consensus.Votes.{count_votes, count_votes-votes_and_total}

abbrev test_option : DposOption
test_option = record {
  block_interval = 5;
  block_repeat = 12;
  max_validator_size = 3;
  min_start_quantity = 100;
  delay_epcho = 2;
  max_confirmed_num = 72;
}

abbrev candidate_of : Address → CandidateInfo
candidate_of a = record { addr = a; weight = 100; degrade_time = 0 }

-- The validators and candidates 1, 2 and 3; 7 has voted for 1 and 2, and 1 for itself.
abbrev test_context : DposContext
test_context = record {
  epoch = some (1 ∷ 2 ∷ 3 ∷ []);
  delegates = (1, 1) ∷ (1, 7) ∷ (2, 7) ∷ [];
  votes = update (update (λ _. none) 7 (some (1 ∷ 2 ∷ []))) 1 (some (1 ∷ []));
  candidates = λ a. if ltb a 4 then some (candidate_of a) else none;
}

-- Seven time units into the turn of the second validator.
lookup_validator-turn_example :
    lookup_validator test_option (4 * epoch_interval test_option + 1 * (5 * 12) + 7) test_context
    ≡ some 2
lookup_validator-turn_example =
    lookup_validator-turn test_option test_context (1 ∷ 2 ∷ 3 ∷ []) 4 1 7 refl (omega arith)
      (omega arith) (omega arith) (omega arith)

irreversible_height-reaching_example : 2 * 4 < 3 * reaching 10 (12 ∷ 10 ∷ 9 ∷ 11 ∷ [])
unfolding irreversible_height
irreversible_height-reaching_example = irreversible_height-reaching (12 ∷ 10 ∷ 9 ∷ 11 ∷ []) 10 refl

-- Three miners, of whom one made two blocks.
abbrev test_chain : List Header
test_chain =
    record { height = 9; miner = 1 }
    ∷ record { height = 8; miner = 2 }
    ∷ record { height = 7; miner = 2 }
    ∷ record { height = 6; miner = 3 }
    ∷ record { height = 5; miner = 1 }
    ∷ []

test_context-IsWeighted : IsWeighted test_context
test_context-IsWeighted = record { weights = λ a info e. ground arith }

kickout_validator-Reweighed_example :
    Reweighed test_context (kickout_validator test_option 400 100 (λ a. 4) test_context).1
    × IsWeighted (kickout_validator test_option 400 100 (λ a. 4) test_context).1
kickout_validator-Reweighed_example =
    kickout_validator-Reweighed test_option 400 100 (λ a. 4) test_context test_context-IsWeighted

abbrev test_votes : List Ballot
test_votes = (1, 50) ∷ (2, 70) ∷ (3, 10) ∷ (4, 60) ∷ []

-- With a draw of 0 each time the three with the most votes change places.
elect-Elects_example : Elects test_option test_votes 190 ((4, 60) ∷ (1, 50) ∷ (2, 70) ∷ [])
unfolding elect sort_ballots shuffle
elect-Elects_example =
    elect-Elects ltb (λ i. 0) test_option test_votes 190 ((4, 60) ∷ (1, 50) ∷ (2, 70) ∷ []) refl

count_votes-votes_and_total_example :
    count_votes (some 10) (λ a. a * 10) (candidate_of 1 ∷ candidate_of 2 ∷ []) test_context
    ≡ some ((1, 1000) ∷ (2, 0) ∷ [], 150)
unfolding delegators
count_votes-votes_and_total_example =
    count_votes-votes_and_total (some 10) (λ a. a * 10) (candidate_of 1 ∷ candidate_of 2 ∷ [])
      test_context
