-- ===== src/Dpos/Kickout.antt =====
-- KickoutCandidate: its loop over the candidate's delegators.
use uranus.Prelude.{
  ◌≡◌, true, false, not, ◌&&◌, Option, none, some, List, [], ◌∷◌, ◌==◌, update, Bool-cases,
  Option-cases, inl, inr, arith, refl, ap, ◌∙◌, sym, subst, ==_iff,
}
use uranus.State.Object.{Address}
use uranus.Dpos.Context.{
  DposContext, DposError, elem, has_delegate, delete_delegate, delegators, without, stored_vote,
  kickout_delegators, kickout_candidate,
}
use uranus.Dpos.Run.{voted, is_candidate, IsDistinct, IsLinked, IsConsistent}
use uranus.Dpos.Tries.{has-delete_delegate, elem-delegators, delete_delegate-IsDistinct}
use uranus.Dpos.Relinked.{struck}

-- No delegator is met twice.
abbrev IsOnce : List Address → Type 0
IsOnce [] = Unit
IsOnce (d ∷ ds) = (elem d ds ≡ false) × IsOnce ds

delegators-IsOnce :
    (c : Address) (ds : List (Address × Address)) → IsDistinct ds → IsOnce (delegators c ds)
unfolding delegators
delegators-IsOnce c [] h = tt
delegators-IsOnce c ((x, y) ∷ ds) h = elim (Bool-cases (c == x)) [
  | inl e ↦ rw e (
    elem-delegators c y ds ∙ ap (λ a. has_delegate a y ds) ((==_iff c x).0 e) ∙ h.0,
    delegators-IsOnce c ds h.1,
  )
  | inr n ↦ rw n (delegators-IsOnce c ds h.1)
]

-- What the loop over `ds` leaves of a context: no pair of the candidate and one of `ds`.
record Kicked (c : Address) (ds : List Address) (ctx : DposContext)
    (r : Option DposError × DposContext) : Type 0 where
  error : r.0 ≡ none
  agreed : IsLinked r.1
  candidates : r.1.candidates ≡ ctx.candidates
  epoch : r.1.epoch ≡ ctx.epoch
  left :
      (x d : Address)
      → has_delegate x d r.1.delegates
        ≡ (not (x == c && elem d ds) && has_delegate x d ctx.delegates)

vote_of_linked :
    (c y : Address) (ctx : DposContext)
    → IsLinked ctx
    → has_delegate c y ctx.delegates ≡ true
    → (olds : List Address) × (ctx.votes y ≡ some olds)
vote_of_linked c y ctx h e = elim (Option-cases (ctx.votes y)) [
  | inr found ↦ found
  | inl n ↦ absurd (ground (h.linked c y, e, n, arith))
]

abbrev struck_context : Address → Address → List Address → DposContext → DposContext
struck_context c y olds ctx = record ctx {
  delegates = delete_delegate c y ctx.delegates;
  votes = update ctx.votes y (stored_vote (without c olds));
}

still_there :
    (c y d : Address) (ds : List Address) (ctx : DposContext)
    → elem y ds ≡ false
    → elem d ds ≡ true
    → has_delegate c d ctx.delegates ≡ true
    → has_delegate c d (delete_delegate c y ctx.delegates) ≡ true
still_there c y d ds ctx once e h = elim (Bool-cases (d == y)) [
  | inl same ↦ absurd (ground (arith, e, once, ap (λ a. elem a ds) ((==_iff d y).0 same)))
  | inr n ↦ ground (arith, has-delete_delegate c d c y ctx.delegates, n, h)
]

kickout_delegators-Kicked :
    (c : Address) (ds : List Address) (ctx : DposContext)
    → IsLinked ctx
    → IsOnce ds
    → ((d : Address) → elem d ds ≡ true → has_delegate c d ctx.delegates ≡ true)
    → Kicked c ds ctx (kickout_delegators c ds ctx)
unfolding kickout_delegators
kickout_delegators-Kicked c [] ctx h once all = record {
  error = refl;
  agreed = h;
  candidates = refl;
  epoch = refl;
  left = λ x d. ground arith;
}
kickout_delegators-Kicked c (y ∷ ds) ctx h once all =
    let (olds, found) = vote_of_linked c y ctx h (all y (ground arith)) in
    let next : IsLinked (struck_context c y olds ctx) = record {
      distinct = delete_delegate-IsDistinct c y ctx.delegates h.distinct;
      linked = λ x d. struck ctx c y olds x d h found;
    } in
    let rest =
      kickout_delegators-Kicked c ds (struck_context c y olds ctx) next once.1
        (λ d e. still_there c y d ds ctx once.0 e (all d (ground (e, arith)))) in
    rw (kickout_delegators, found)
      (record {
        error = rest.error;
        agreed = rest.agreed;
        candidates = rest.candidates;
        epoch = rest.epoch;
        left = λ x d. ground (arith, rest.left x d, has-delete_delegate x d c y ctx.delegates);
      })

-- The context that the loop of KickoutCandidate starts from.
abbrev resigned : Address → DposContext → DposContext
resigned c ctx = record ctx { candidates = update ctx.candidates c none }

is_candidate-resigned :
    (c x : Address) (ctx : DposContext)
    → is_candidate (resigned c ctx) x ≡ (not (x == c) && is_candidate ctx x)
is_candidate-resigned c x ctx = ground arith

kickout_candidate-found :
    (c : Address) (ctx : DposContext)
    → is_candidate ctx c ≡ true
    → kickout_candidate c ctx ≡ kickout_delegators c (delegators c ctx.delegates) (resigned c ctx)
unfolding kickout_candidate
kickout_candidate-found c ctx h = elim (Option-cases (ctx.candidates c)) [
  | inl n ↦ absurd (ground (h, n, arith))
  | inr (info, e) ↦ rw (kickout_candidate, e) refl
]

kickout_candidate-Kicked :
    (c : Address) (ctx : DposContext)
    → IsLinked ctx
    → is_candidate ctx c ≡ true
    → Kicked c (delegators c ctx.delegates) (resigned c ctx) (kickout_candidate c ctx)
kickout_candidate-Kicked c ctx h e =
    subst (Kicked c (delegators c ctx.delegates) (resigned c ctx))
      (sym (kickout_candidate-found c ctx e))
      (kickout_delegators-Kicked c (delegators c ctx.delegates) (resigned c ctx)
        (record { distinct = h.distinct; linked = h.linked })
        (delegators-IsOnce c ctx.delegates h.distinct)
        (λ d m. sym (elem-delegators c d ctx.delegates) ∙ m))

voted-kickout :
    (c x d : Address) (ctx : DposContext) {r : Option DposError × DposContext}
    → IsLinked ctx
    → Kicked c (delegators c ctx.delegates) (resigned c ctx) r
    → voted (r.1.votes d) x ≡ (not (x == c) && voted (ctx.votes d) x)
voted-kickout c x d ctx {r} h k = elim (Bool-cases (x == c)) [
  | inl e ↦ ground (
    arith,
    k.agreed.linked x d,
    k.left x d,
    elem-delegators c d ctx.delegates,
    e,
    (==_iff x c).0 e,
  )
  | inr n ↦ ground (arith, k.agreed.linked x d, k.left x d, h.linked x d, n)
]

-- KickoutCandidate of a candidate of a well-formed context does not fail: the candidate is gone, and
-- from every vote the candidate, and nothing else, is struck; the context is well-formed again.
pub kickout_candidate-votes :
    (c : Address) (ctx : DposContext)
    → IsConsistent ctx
    → is_candidate ctx c ≡ true
    → ((kickout_candidate c ctx).0 ≡ none)
      × ((x : Address)
          → is_candidate (kickout_candidate c ctx).1 x ≡ (not (x == c) && is_candidate ctx x))
      × ((x d : Address)
          → voted ((kickout_candidate c ctx).1.votes d) x ≡ (not (x == c) && voted (ctx.votes d) x))
      × IsConsistent (kickout_candidate c ctx).1
kickout_candidate-votes c ctx h e =
    let k = kickout_candidate-Kicked c ctx h.agreed e in
    let votes : (x d : Address)
        → voted ((kickout_candidate c ctx).1.votes d) x ≡ (not (x == c) && voted (ctx.votes d) x) =
      λ x d. voted-kickout c x d ctx h.agreed k in
    let candidates : (x : Address)
        → is_candidate (kickout_candidate c ctx).1 x ≡ (not (x == c) && is_candidate ctx x) =
      λ x.
        ap (λ f. is_candidate (record ctx { candidates = f }) x) k.candidates
        ∙ is_candidate-resigned c x ctx in
    (
      k.error,
      candidates,
      votes,
      record {
        agreed = k.agreed;
        standing = λ x d v. ground (arith, votes x d, v, candidates x, h.standing x d);
      },
    )
