-- ===== src/Dpos/Tests.antt =====
-- A context of two candidates, and the theorems about the context applied to it.
use uranus.Prelude.{◌≡◌, refl, not, ◌&&◌, none, some, List, [], ◌∷◌, ◌==◌, if◌then◌else◌, arith}
use uranus.State.Object.{Address}
use uranus.Dpos.Context
use uranus.Dpos.Context.{DposContext, elem, has_delegate}
use uranus.Dpos.Run
use uranus.Dpos.Run.{DposOp, IsConsistent, is_candidate, voted, run}
use uranus.Dpos.Keeps.{run-IsConsistent, delegate-votes}
use uranus.Dpos.Kickout.{kickout_candidate-votes}

abbrev empty_context : DposContext
empty_context = record { epoch = none; delegates = []; votes = λ d. none; candidates = λ c. none }

pub IsConsistent-empty_context : IsConsistent empty_context
IsConsistent-empty_context = record {
  agreed = record { distinct = tt; linked = λ c d. refl };
  standing = λ c d e. absurd (cc);
}

abbrev test_ops : List DposOp
test_ops =
    Run.become_candidate 10
    ∷ Run.become_candidate 11
    ∷ Run.become_candidate 10
    ∷ Run.delegate 1 (10 ∷ 11 ∷ [])
    ∷ Run.delegate 2 (10 ∷ [])
    ∷ Run.delegate 3 (12 ∷ [])
    ∷ []

run-IsConsistent_example : IsConsistent (run test_ops empty_context)
run-IsConsistent_example = run-IsConsistent test_ops empty_context IsConsistent-empty_context

abbrev pub test_context : DposContext
test_context = record {
  epoch = none;
  delegates = (10, 2) ∷ (11, 1) ∷ (10, 1) ∷ [];
  votes = λ d. if d == 1 then some (10 ∷ 11 ∷ []) else if d == 2 then some (10 ∷ []) else none;
  candidates = λ c.
      if c == 10
      then some (record { addr = 10; weight = 100; degrade_time = 0 })
      else if c == 11
      then some (record { addr = 11; weight = 100; degrade_time = 0 })
      else none;
}

pub IsConsistent-test_context : IsConsistent test_context
IsConsistent-test_context = record {
  agreed = record { distinct = (refl, (refl, (refl, tt))); linked = λ c d. ground arith };
  standing = λ c d e. ground (e, arith);
}

delegate-votes_example :
    ((Context.delegate 2 (11 ∷ []) test_context).0 ≡ none)
    × ((c y : Address)
        → has_delegate c y (Context.delegate 2 (11 ∷ []) test_context).1.delegates
          ≡ (if y == 2 then elem c (11 ∷ []) else has_delegate c y test_context.delegates))
delegate-votes_example = delegate-votes 2 (11 ∷ []) test_context IsConsistent-test_context

kickout_candidate-votes_example :
    ((Context.kickout_candidate 10 test_context).0 ≡ none)
    × ((x : Address)
        → is_candidate (Context.kickout_candidate 10 test_context).1 x
          ≡ (not (x == 10) && is_candidate test_context x))
    × ((x d : Address)
        → voted ((Context.kickout_candidate 10 test_context).1.votes d) x
          ≡ (not (x == 10) && voted (test_context.votes d) x))
    × IsConsistent (Context.kickout_candidate 10 test_context).1
kickout_candidate-votes_example =
    kickout_candidate-votes 10 test_context IsConsistent-test_context refl
