-- ===== src/Dpos/Tries.antt =====
-- What is in the delegate trie and in a vote after an update.
use uranus.Prelude.{
  ◌≡◌, true, not, ◌&&◌, ◌||◌, List, [], ◌∷◌, ◌==◌, Bool-cases, inl, inr, arith, refl, ==_iff,
}
use uranus.State.Object.{Address}
use uranus.Dpos.Context.{
  elem, has_delegate, put_delegate, delete_delegate, delegators, without, delete_all, put_all,
  stored_vote,
}
use uranus.Dpos.Run.{voted, IsDistinct}

pub has-delete_delegate :
    (c d x y : Address) (ds : List (Address × Address))
    → has_delegate c d (delete_delegate x y ds) ≡ (not (c == x && d == y) && has_delegate c d ds)
unfolding delete_delegate
has-delete_delegate c d x y [] = ground arith
has-delete_delegate c d x y ((u, v) ∷ ds) = ground (arith, has-delete_delegate c d x y ds)

pub has_delegate-same :
    (c d x y : Address) (ds : List (Address × Address))
    → (c == x) ≡ true
    → (d == y) ≡ true
    → has_delegate c d ds ≡ has_delegate x y ds
has_delegate-same c d x y ds e f = rw ((==_iff c x).0 e, (==_iff d y).0 f)

pub has-put_delegate :
    (c d x y : Address) (ds : List (Address × Address))
    → has_delegate c d (put_delegate x y ds) ≡ ((c == x && d == y) || has_delegate c d ds)
unfolding put_delegate
has-put_delegate c d x y ds = elim (Bool-cases (c == x)) [
  | inr n ↦ ground arith
  | inl e ↦ elim (Bool-cases (d == y)) [
    | inr n ↦ ground arith
    | inl f ↦ ground (arith, has_delegate-same c d x y ds e f)
  ]
]

pub has-delete_all :
    (c d y : Address) (xs : List Address) (ds : List (Address × Address))
    → has_delegate c d (delete_all xs y ds) ≡ (not (elem c xs && d == y) && has_delegate c d ds)
unfolding delete_all
has-delete_all c d y [] ds = ground arith
has-delete_all c d y (x ∷ xs) ds =
    ground (arith, has-delete_all c d y xs (delete_delegate x y ds), has-delete_delegate c d x y ds)

pub has-put_all :
    (c d y : Address) (xs : List Address) (ds : List (Address × Address))
    → has_delegate c d (put_all xs y ds) ≡ ((elem c xs && d == y) || has_delegate c d ds)
unfolding put_all
has-put_all c d y [] ds = ground arith
has-put_all c d y (x ∷ xs) ds =
    ground (arith, has-put_all c d y xs (put_delegate x y ds), has-put_delegate c d x y ds)

pub elem-without :
    (a c : Address) (xs : List Address) → elem a (without c xs) ≡ (not (a == c) && elem a xs)
unfolding without
elem-without a c [] = ground arith
elem-without a c (x ∷ xs) = ground (arith, elem-without a c xs)

pub elem-delegators :
    (c d : Address) (ds : List (Address × Address)) → elem d (delegators c ds) ≡ has_delegate c d ds
unfolding delegators
elem-delegators c d [] = refl
elem-delegators c d ((x, y) ∷ ds) = ground (arith, elem-delegators c d ds)

pub voted-stored_vote : (cs : List Address) (c : Address) → voted (stored_vote cs) c ≡ elem c cs
voted-stored_vote [] c = refl
voted-stored_vote (x ∷ cs) c = refl

pub delete_delegate-IsDistinct :
    (x y : Address) (ds : List (Address × Address))
    → IsDistinct ds
    → IsDistinct (delete_delegate x y ds)
unfolding delete_delegate
delete_delegate-IsDistinct x y [] h = tt
delete_delegate-IsDistinct x y ((u, v) ∷ ds) h = elim (Bool-cases (x == u && y == v)) [
  | inl e ↦ rw e (delete_delegate-IsDistinct x y ds h.1)
  | inr n ↦
      rw n
        (ground (arith, has-delete_delegate u v x y ds, h.0), delete_delegate-IsDistinct x y ds h.1)
]

pub delete_all-IsDistinct :
    (xs : List Address) (y : Address) (ds : List (Address × Address))
    → IsDistinct ds
    → IsDistinct (delete_all xs y ds)
unfolding delete_all
delete_all-IsDistinct [] y ds h = h
delete_all-IsDistinct (x ∷ xs) y ds h =
    delete_all-IsDistinct xs y (delete_delegate x y ds) (delete_delegate-IsDistinct x y ds h)

pub put_delegate-IsDistinct :
    (x y : Address) (ds : List (Address × Address))
    → IsDistinct ds
    → IsDistinct (put_delegate x y ds)
unfolding put_delegate
put_delegate-IsDistinct x y ds h = elim (Bool-cases (has_delegate x y ds)) [
  | inl e ↦ rw e h
  | inr n ↦ rw n (n, h)
]

pub put_all-IsDistinct :
    (xs : List Address) (y : Address) (ds : List (Address × Address))
    → IsDistinct ds
    → IsDistinct (put_all xs y ds)
unfolding put_all
put_all-IsDistinct [] y ds h = h
put_all-IsDistinct (x ∷ xs) y ds h =
    put_all-IsDistinct xs y (put_delegate x y ds) (put_delegate-IsDistinct x y ds h)
