-- ===== src/Dpos/Keeps.antt =====
-- Every call keeps the context well-formed, and Delegate records the vote.
use uranus.Prelude.{
  ◌≡◌, Bool, true, false, ◌&&◌, none, some, List, [], ◌∷◌, ◌==◌, if◌then◌else◌, update, Bool-cases,
  Option-cases, inl, inr, arith, refl, ap, ◌∙◌, ==_iff,
}
use uranus.State.Object.{Address}
use uranus.Dpos.Context
use uranus.Dpos.Context.{
  DposContext, DposError, invalid_candidate, CandidateInfo, elem, has_delegate, put_delegate,
  delete_delegate, delegators, without, all_candidates, delete_all, put_all, forget, stored_vote,
  kickout_delegators, kickout_candidate,
}
use uranus.Dpos.Run
use uranus.Dpos.Run.{voted, is_candidate, IsDistinct, IsLinked, IsConsistent, DposOp, apply, run}
use uranus.Dpos.Tries.{put_all-IsDistinct}
use uranus.Dpos.Relinked.{revoted, unvoted, forget-IsDistinct}
use uranus.Dpos.Kickout.{kickout_candidate-votes}

-- Are all addresses candidates?
abbrev pub each_candidate : List Address → DposContext → Bool
each_candidate [] ctx = true
each_candidate (c ∷ cs) ctx = is_candidate ctx c && each_candidate cs ctx

all_candidates-each_candidate :
    (cs : List Address) (ctx : DposContext) → all_candidates cs ctx ≡ each_candidate cs ctx
unfolding all_candidates
all_candidates-each_candidate [] ctx = refl
all_candidates-each_candidate (c ∷ cs) ctx = ground (arith, all_candidates-each_candidate cs ctx)

each_candidate-elem :
    (cs : List Address) (ctx : DposContext) (c : Address)
    → each_candidate cs ctx ≡ true
    → elem c cs ≡ true
    → is_candidate ctx c ≡ true
each_candidate-elem [] ctx c h e = absurd (ground (e, arith))
each_candidate-elem (x ∷ cs) ctx c h e = elim (Bool-cases (c == x)) [
  | inl same ↦ ap (is_candidate ctx) ((==_iff c x).0 same) ∙ ground (h, arith)
  | inr n ↦ each_candidate-elem cs ctx c (ground (h, arith)) (ground (e, n, arith))
]

-- The context after a vote.
abbrev delegated : Address → List Address → DposContext → DposContext
delegated d cs ctx = record ctx {
  delegates = put_all cs d (forget (ctx.votes d) d ctx.delegates);
  votes = update ctx.votes d (some cs);
}

pub delegate-accepted :
    (d : Address) (cs : List Address) (ctx : DposContext)
    → each_candidate cs ctx ≡ true
    → Context.delegate d cs ctx ≡ (none, delegated d cs ctx)
unfolding Context.delegate
delegate-accepted d cs ctx h = rw (all_candidates-each_candidate cs ctx, h, Context.delegate) refl

pub delegate-refused :
    (d : Address) (cs : List Address) (ctx : DposContext)
    → each_candidate cs ctx ≡ false
    → Context.delegate d cs ctx ≡ (some invalid_candidate, ctx)
unfolding Context.delegate
delegate-refused d cs ctx h = rw (all_candidates-each_candidate cs ctx, h, Context.delegate) refl

delegated-IsConsistent :
    (d : Address) (cs : List Address) (ctx : DposContext)
    → IsConsistent ctx
    → each_candidate cs ctx ≡ true
    → IsConsistent (delegated d cs ctx)
delegated-IsConsistent d cs ctx h e = record {
  agreed = record {
    distinct =
        put_all-IsDistinct cs d _
          (forget-IsDistinct (ctx.votes d) d ctx.delegates h.agreed.distinct);
    linked = λ x y. revoted ctx d cs x y h.agreed;
  };
  standing = λ x y v. elim (Bool-cases (d == y)) [
    | inl same ↦ each_candidate-elem cs ctx x e (ground (v, same, arith))
    | inr n ↦ h.standing x y (ground (v, n, arith))
  ];
}

undelegate-IsConsistent :
    (d : Address) (ctx : DposContext) → IsConsistent ctx → IsConsistent (Context.undelegate d ctx).1
unfolding Context.undelegate
undelegate-IsConsistent d ctx h = elim (Option-cases (ctx.votes d)) [
  | inl n ↦ rw (Context.undelegate, n) h
  | inr (olds, e) ↦
      rw (Context.undelegate, e)
        (record {
          agreed = record {
            distinct = forget-IsDistinct (some olds) d ctx.delegates h.agreed.distinct;
            linked = λ x y. ground (arith, unvoted ctx d x y h.agreed, e);
          };
          standing = λ x y v. elim (Bool-cases (d == y)) [
            | inl same ↦ absurd (ground (v, same, arith))
            | inr n ↦ h.standing x y (ground (v, n, arith))
          ];
        })
]

become_candidate-IsConsistent :
    (a : Address) (ctx : DposContext)
    → IsConsistent ctx
    → IsConsistent (Context.become_candidate a ctx).1
unfolding Context.become_candidate
become_candidate-IsConsistent a ctx h = elim (Option-cases (ctx.candidates a)) [
  | inr (info, e) ↦ rw (Context.become_candidate, e) h
  | inl n ↦
      rw (Context.become_candidate, n)
        (record {
          agreed = record { distinct = h.agreed.distinct; linked = h.agreed.linked };
          standing = λ x y v. ground (arith, h.standing x y v);
        })
]

kickout_candidate-IsConsistent :
    (c : Address) (ctx : DposContext)
    → IsConsistent ctx
    → IsConsistent (Context.kickout_candidate c ctx).1
unfolding Context.kickout_candidate
kickout_candidate-IsConsistent c ctx h = elim (Option-cases (ctx.candidates c)) [
  | inl n ↦ rw (Context.kickout_candidate, n) h
  | inr (info, e) ↦
      let (_, _, _, kept) = kickout_candidate-votes c ctx h (ground (e, arith)) in kept
]

delegate-IsConsistent :
    (d : Address) (cs : List Address) (ctx : DposContext)
    → IsConsistent ctx
    → IsConsistent (Context.delegate d cs ctx).1
delegate-IsConsistent d cs ctx h = elim (Bool-cases (each_candidate cs ctx)) [
  | inl e ↦ rw (delegate-accepted d cs ctx e) (delegated-IsConsistent d cs ctx h e)
  | inr n ↦ rw (delegate-refused d cs ctx n) h
]

-- Any sequence of BecomeCandidate, KickoutCandidate, Delegate and UnDelegate, failed ones among
-- them, keeps a context well-formed: the delegate trie has a candidate and a delegator exactly when
-- the delegator's vote has the candidate, no pair twice, and votes are for candidates only.
pub run-IsConsistent :
    (ops : List DposOp) (ctx : DposContext) → IsConsistent ctx → IsConsistent (run ops ctx)
unfolding run apply
run-IsConsistent [] ctx h = h
run-IsConsistent (Run.become_candidate a ∷ ops) ctx h =
    run-IsConsistent ops _ (become_candidate-IsConsistent a ctx h)
run-IsConsistent (Run.undelegate a ∷ ops) ctx h =
    run-IsConsistent ops _ (undelegate-IsConsistent a ctx h)
run-IsConsistent (Run.kickout_candidate a ∷ ops) ctx h =
    run-IsConsistent ops _ (kickout_candidate-IsConsistent a ctx h)
run-IsConsistent (Run.delegate a cs ∷ ops) ctx h =
    run-IsConsistent ops _ (delegate-IsConsistent a cs ctx h)

-- On a well-formed context, Delegate succeeds exactly when each address that it votes for is a
-- candidate; the delegator is then one of exactly these candidates' delegators, and no other pair of
-- the delegate trie changes; otherwise no pair changes.
pub delegate-votes :
    (d : Address) (cs : List Address) (ctx : DposContext)
    → IsConsistent ctx
    → ((Context.delegate d cs ctx).0
        ≡ (if each_candidate cs ctx then none else some invalid_candidate))
      × ((c y : Address)
          → has_delegate c y (Context.delegate d cs ctx).1.delegates ≡ (
              if each_candidate cs ctx && y == d
              then elem c cs
              else has_delegate c y ctx.delegates))
delegate-votes d cs ctx h = elim (Bool-cases (each_candidate cs ctx)) [
  | inl e ↦
      rw (delegate-accepted d cs ctx e, e)
        (refl, λ c y. ground (arith, revoted ctx d cs c y h.agreed, h.agreed.linked c y))
  | inr n ↦ rw (delegate-refused d cs ctx n, n) (refl, λ c y. refl)
]
