-- ===== src/Dpos/Run.antt =====
-- Sequences of calls on the dpos context, failed ones among them.
use uranus.Prelude.{◌≡◌, Bool, true, false, Option, none, some, List, [], ◌∷◌}
use uranus.State.Object.{Address}
use uranus.Dpos.Context
use uranus.Dpos.Context.{
  DposContext, DposError, elem, has_delegate, put_delegate, delete_delegate, delegators, without,
  all_candidates, delete_all, put_all, forget, stored_vote, kickout_delegators,
}

pub data DposOp : Type 0 where
  become_candidate undelegate kickout_candidate : Address → DposOp
  delegate : Address → List Address → DposOp

-- Is a candidate in a vote?
abbrev pub voted : Option (List Address) → Address → Bool
voted none c = false
voted (some cs) c = elem c cs

-- Is an address a candidate?
abbrev pub is_candidate : DposContext → Address → Bool
is_candidate ctx c = elim (ctx.candidates c) [ none ↦ false | some _ ↦ true ]

-- No pair is in the list twice, as it lists the keys of a trie.
abbrev pub IsDistinct : List (Address × Address) → Type 0
IsDistinct [] = Unit
IsDistinct ((c, d) ∷ ds) = (has_delegate c d ds ≡ false) × IsDistinct ds

-- The delegate trie and the vote trie say the same of each candidate and delegator.
pub record IsLinked (ctx : DposContext) : Type 0 where
  pub distinct : IsDistinct ctx.delegates
  pub linked : (c d : Address) → has_delegate c d ctx.delegates ≡ voted (ctx.votes d) c

-- A well-formed context: the two tries agree, and votes are for candidates.
pub record IsConsistent (ctx : DposContext) : Type 0 where
  pub agreed : IsLinked ctx
  pub standing : (c d : Address) → voted (ctx.votes d) c ≡ true → is_candidate ctx c ≡ true

unfoldable pub apply : DposOp → DposContext → DposContext
apply (become_candidate a) ctx = (Context.become_candidate a ctx).1
apply (undelegate a) ctx = (Context.undelegate a ctx).1
apply (kickout_candidate a) ctx = (Context.kickout_candidate a ctx).1
apply (delegate a cs) ctx = (Context.delegate a cs ctx).1

unfoldable pub run : List DposOp → DposContext → DposContext
unfolding apply
run [] ctx = ctx
run (op ∷ ops) ctx = run ops (apply op ctx)
