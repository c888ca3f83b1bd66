-- ===== src/Consensus/Weights.antt =====
-- consensus/dpos/epochcontext.go, kickoutValidator: at the end of an epoch the weight of a validator
-- falls or rises with the blocks that it made. `mint_cnt` is the trie of these counts at the epoch. The
-- list of validators to kick out is never filled, so the code after it has nothing to do.
use uranus.Prelude.{
  ℕ, ◌+◌, ◌-◌, ◌/◌, ◌%◌, ◌≤◌, ◌≡◌, ◌↔◌, refl, sym, ◌∙◌, subst, Option, none, some, List, [], ◌∷◌,
  ltb, ◌==◌, if◌then◌else◌, arith, inl, inr, Bool-cases, Option-cases, update, ==_iff,
}
use uranus.State.Object.{Address}
use uranus.Dpos.Context.{DposContext, CandidateInfo}
use uranus.Dpos.Validators.{get_validators}
use uranus.Consensus.Schedule.{DposOption, epoch_interval}

pub data KickoutError : Type 0 where
  no_validators no_validator_to_kickout invalid_candidate : KickoutError

-- The first epoch may be shorter than the others.
unfoldable pub epoch_duration : DposOption → ℕ → ℕ → ℕ
unfolding epoch_interval
epoch_duration opt timestamp first_block =
    if ltb (timestamp - first_block) (epoch_interval opt)
    then timestamp - first_block
    else epoch_interval opt

-- The candidate with its new weight, by the blocks that it made and those that it should have made.
unfoldable pub reweigh : ℕ → ℕ → ℕ → CandidateInfo → CandidateInfo
reweigh timestamp expected cnt info =
    if ltb cnt expected
    then (if ltb 10 info.weight
        then record info { weight = info.weight - 10; degrade_time = timestamp }
        else info)
    else (if ltb info.weight 100
        then record info { weight = info.weight + 10; degrade_time = timestamp }
        else info)

-- The loop over the validators.
unfoldable pub reweigh_all :
    ℕ → ℕ → (Address → ℕ) → List Address → DposContext → Option KickoutError × DposContext
unfolding reweigh
reweigh_all timestamp expected mint_cnt [] ctx = (none, ctx)
reweigh_all timestamp expected mint_cnt (v ∷ validators) ctx = elim (ctx.candidates v) [
  | none ↦ (some invalid_candidate, ctx)
  | some info ↦ reweigh_all timestamp expected mint_cnt validators (record ctx {
    candidates = update ctx.candidates v (some (reweigh timestamp expected (mint_cnt v) info));
  })
]

-- What follows `GetValidators`.
unfoldable pub kickout_among :
    ℕ → ℕ → (Address → ℕ) → Option (List Address) → DposContext → Option KickoutError × DposContext
unfolding reweigh_all
kickout_among timestamp expected mint_cnt none ctx = (some no_validators, ctx)
kickout_among timestamp expected mint_cnt (some []) ctx = (some no_validator_to_kickout, ctx)
kickout_among timestamp expected mint_cnt (some (v ∷ validators)) ctx =
    reweigh_all timestamp expected mint_cnt (v ∷ validators) ctx

unfoldable pub kickout_validator :
    DposOption → ℕ → ℕ → (Address → ℕ) → DposContext → Option KickoutError × DposContext
unfolding epoch_duration kickout_among
kickout_validator opt timestamp first_block mint_cnt ctx =
    let expected =
      epoch_duration opt timestamp first_block / opt.block_interval / opt.max_validator_size / 2 in
    kickout_among timestamp expected mint_cnt (get_validators ctx) ctx

-- A weight is a multiple of 10 from 10 to 100.
abbrev pub IsWeight : ℕ → Type 0
IsWeight w = (10 ≤ w) × (w ≤ 100) × (w % 10 ≡ 0)

pub record IsWeighted (ctx : DposContext) : Type 0 where
  pub weights :
      (a : Address) (info : CandidateInfo) → ctx.candidates a ≡ some info → IsWeight info.weight

-- Nothing but weights and the times of their change differs.
pub record Reweighed (ctx ctx' : DposContext) : Type 0 where
  pub same_epoch : ctx'.epoch ≡ ctx.epoch
  pub same_delegates : ctx'.delegates ≡ ctx.delegates
  pub same_votes : ctx'.votes ≡ ctx.votes
  pub same_candidates : (a : Address) → (ctx'.candidates a ≡ none) ↔ (ctx.candidates a ≡ none)

reweigh-IsWeight :
    (timestamp expected cnt : ℕ) (info : CandidateInfo)
    → IsWeight info.weight
    → IsWeight (reweigh timestamp expected cnt info).weight
unfolding reweigh
reweigh-IsWeight timestamp expected cnt info h = elim (Bool-cases (ltb cnt expected)) [
  | inl few ↦ elim (Bool-cases (ltb 10 info.weight)) [
    | inl more ↦ rw (reweigh, few, more) (ground arith)
    | inr low ↦ rw (reweigh, few, low) h
  ]
  | inr enough ↦ elim (Bool-cases (ltb info.weight 100)) [
    | inl less ↦ rw (reweigh, enough, less) (ground arith)
    | inr high ↦ rw (reweigh, enough, high) h
  ]
]

Reweighed-self : (ctx : DposContext) → Reweighed ctx ctx
Reweighed-self ctx = record {
  same_epoch = refl;
  same_delegates = refl;
  same_votes = refl;
  same_candidates = λ a. (λ p. p, λ p. p);
}

Reweighed-trans : (a b c : DposContext) → Reweighed a b → Reweighed b c → Reweighed a c
Reweighed-trans a b c p q = record {
  same_epoch = q.same_epoch ∙ p.same_epoch;
  same_delegates = q.same_delegates ∙ p.same_delegates;
  same_votes = q.same_votes ∙ p.same_votes;
  same_candidates = λ x. (
    λ e. (p.same_candidates x).0 ((q.same_candidates x).0 e),
    λ e. (q.same_candidates x).1 ((p.same_candidates x).1 e),
  );
}

-- The context with a candidate that is there written again.
rewrite_candidate :
    (ctx : DposContext) (v : Address) (info info' : CandidateInfo)
    → ctx.candidates v ≡ some info
    → Reweighed ctx (record ctx { candidates = update ctx.candidates v (some info') })
rewrite_candidate ctx v info info' e = record {
  same_epoch = refl;
  same_delegates = refl;
  same_votes = refl;
  same_candidates = λ a. elim (Bool-cases (v == a)) [
    | inl eq ↦
        let held : ctx.candidates a ≡ some info =
          subst (λ z. ctx.candidates z ≡ some info) ((==_iff v a).0 eq) e in
        (λ p. (let no : some info' ≡ none = rw eq at p in absurd (cc)), λ p. absurd (cc))
    | inr ne ↦ (λ p. rw ne at p, λ p. rw ne p)
  ];
}

rewrite-IsWeighted :
    (ctx : DposContext) (v : Address) (info' : CandidateInfo)
    → IsWeighted ctx
    → IsWeight info'.weight
    → IsWeighted (record ctx { candidates = update ctx.candidates v (some info') })
rewrite-IsWeighted ctx v info' h w = record {
  weights = λ a info e. elim (Bool-cases (v == a)) [
    | inl eq ↦
        let it : some info' ≡ some info = rw eq at e in
        let same : info' ≡ info = cc in subst (λ i. IsWeight i.weight) same w
    | inr ne ↦ h.weights a info (rw ne at e)
  ];
}

reweigh_all-Reweighed :
    (timestamp expected : ℕ) (mint_cnt : Address → ℕ) (validators : List Address)
    (ctx : DposContext)
    → IsWeighted ctx
    → Reweighed ctx (reweigh_all timestamp expected mint_cnt validators ctx).1
      × IsWeighted (reweigh_all timestamp expected mint_cnt validators ctx).1
unfolding reweigh_all
reweigh_all-Reweighed timestamp expected mint_cnt [] ctx h = (Reweighed-self ctx, h)
reweigh_all-Reweighed timestamp expected mint_cnt (v ∷ validators) ctx h =
    elim (Option-cases (ctx.candidates v)) [
      | inl gone ↦
          let shown : reweigh_all timestamp expected mint_cnt (v ∷ validators) ctx
              ≡ (some invalid_candidate, ctx) =
            rw (reweigh_all, gone) refl in
          subst (λ r. Reweighed ctx r.1 × IsWeighted r.1) (sym shown) (Reweighed-self ctx, h)
      | inr (info, e) ↦
          let info' = reweigh timestamp expected (mint_cnt v) info in
          let next : DposContext = record ctx {
            candidates = update ctx.candidates v (some info');
          } in
          let shown : reweigh_all timestamp expected mint_cnt (v ∷ validators) ctx
              ≡ reweigh_all timestamp expected mint_cnt validators next =
            rw (reweigh_all, e) refl in
          let weighed =
            rewrite-IsWeighted ctx v info' h
              (reweigh-IsWeight timestamp expected (mint_cnt v) info (h.weights v info e)) in
          let rest = reweigh_all-Reweighed timestamp expected mint_cnt validators next weighed in
          subst (λ r. Reweighed ctx r.1 × IsWeighted r.1) (sym shown)
            (
              Reweighed-trans ctx next (reweigh_all timestamp expected mint_cnt validators next).1
                  (rewrite_candidate ctx v info info' e) rest.0,
              rest.1,
            )
    ]

kickout_among-Reweighed :
    (timestamp expected : ℕ) (mint_cnt : Address → ℕ) (validators : Option (List Address))
    (ctx : DposContext)
    → IsWeighted ctx
    → Reweighed ctx (kickout_among timestamp expected mint_cnt validators ctx).1
      × IsWeighted (kickout_among timestamp expected mint_cnt validators ctx).1
unfolding kickout_among
kickout_among-Reweighed timestamp expected mint_cnt none ctx h = (Reweighed-self ctx, h)
kickout_among-Reweighed timestamp expected mint_cnt (some []) ctx h = (Reweighed-self ctx, h)
kickout_among-Reweighed timestamp expected mint_cnt (some (v ∷ validators)) ctx h =
    reweigh_all-Reweighed timestamp expected mint_cnt (v ∷ validators) ctx h

-- kickoutValidator, failed or not, keeps every weight a multiple of 10 from 10 to 100; it removes
-- no candidate and adds none, and changes neither the validators nor the votes nor the delegate
-- trie.
pub kickout_validator-Reweighed :
    (opt : DposOption) (timestamp first_block : ℕ) (mint_cnt : Address → ℕ) (ctx : DposContext)
    → IsWeighted ctx
    → Reweighed ctx (kickout_validator opt timestamp first_block mint_cnt ctx).1
      × IsWeighted (kickout_validator opt timestamp first_block mint_cnt ctx).1
unfolding kickout_validator
kickout_validator-Reweighed opt timestamp first_block mint_cnt ctx h =
    kickout_among-Reweighed timestamp
      (epoch_duration opt timestamp first_block / opt.block_interval / opt.max_validator_size / 2)
      mint_cnt ctx.epoch ctx h
