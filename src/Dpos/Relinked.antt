-- ===== src/Dpos/Relinked.antt =====
-- The two tries still agree when a delegator's pairs and its vote have been replaced.
use uranus.Prelude.{
  ◌≡◌, not, ◌&&◌, Option, none, some, List, ◌==◌, update, Bool-cases, inl, inr, arith, ==_iff,
}
use uranus.State.Object.{Address}
use uranus.Dpos.Context.{
  DposContext, has_delegate, delete_delegate, without, put_all, forget, stored_vote,
}
use uranus.Dpos.Run.{voted, IsDistinct, IsLinked}
use uranus.Dpos.Tries.{
  has-delete_delegate, has-delete_all, has-put_all, elem-without, voted-stored_vote,
  delete_all-IsDistinct,
}

has-forget :
    (c d y : Address) (v : Option (List Address)) (ds : List (Address × Address))
    → has_delegate c d (forget v y ds) ≡ (not (voted v c && d == y) && has_delegate c d ds)
has-forget c d y none ds = ground arith
has-forget c d y (some olds) ds = has-delete_all c d y olds ds

pub forget-IsDistinct :
    (v : Option (List Address)) (y : Address) (ds : List (Address × Address))
    → IsDistinct ds
    → IsDistinct (forget v y ds)
forget-IsDistinct none y ds h = h
forget-IsDistinct (some olds) y ds h = delete_all-IsDistinct olds y ds h

-- A delegator's pairs are replaced, and so is its vote.
pub revoted :
    (ctx : DposContext) (y : Address) (cs : List Address) (c d : Address)
    → IsLinked ctx
    → has_delegate c d (put_all cs y (forget (ctx.votes y) y ctx.delegates))
      ≡ voted (update ctx.votes y (some cs) d) c
revoted ctx y cs c d h = elim (Bool-cases (d == y)) [
  | inl e ↦ ground (
    arith,
    has-put_all c d y cs (forget (ctx.votes y) y ctx.delegates),
    has-forget c d y (ctx.votes y) ctx.delegates,
    h.linked c d,
    e,
    (==_iff d y).0 e,
  )
  | inr n ↦ ground (
    arith,
    has-put_all c d y cs (forget (ctx.votes y) y ctx.delegates),
    has-forget c d y (ctx.votes y) ctx.delegates,
    h.linked c d,
    n,
  )
]

pub unvoted :
    (ctx : DposContext) (y c d : Address)
    → IsLinked ctx
    → has_delegate c d (forget (ctx.votes y) y ctx.delegates) ≡ voted (update ctx.votes y none d) c
unvoted ctx y c d h = elim (Bool-cases (d == y)) [
  | inl e ↦
      ground
        (arith, has-forget c d y (ctx.votes y) ctx.delegates, h.linked c d, e, (==_iff d y).0 e)
  | inr n ↦ ground (arith, has-forget c d y (ctx.votes y) ctx.delegates, h.linked c d, n)
]

-- One step of the loop over a candidate's delegators.
pub struck :
    (ctx : DposContext) (x y : Address) (olds : List Address) (c d : Address)
    → IsLinked ctx
    → ctx.votes y ≡ some olds
    → has_delegate c d (delete_delegate x y ctx.delegates)
      ≡ voted (update ctx.votes y (stored_vote (without x olds)) d) c
struck ctx x y olds c d h v = elim (Bool-cases (d == y)) [
  | inl e ↦ ground (
    arith,
    has-delete_delegate c d x y ctx.delegates,
    h.linked c d,
    e,
    (==_iff d y).0 e,
    v,
    voted-stored_vote (without x olds) c,
    elem-without c x olds,
  )
  | inr n ↦ ground (arith, has-delete_delegate c d x y ctx.delegates, h.linked c d, n)
]
