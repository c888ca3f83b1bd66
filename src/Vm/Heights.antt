-- ===== src/Vm/Heights.antt =====
-- What the check of a stack's height says of the pops, the pushes and Back of an operation.
use uranus.Prelude.{
  ℕ, zero, suc, ◌+◌, ◌-◌, ◌<◌, ◌≤◌, ◌≡◌, ◌⊎◌, inl, inr, refl, true, false, List, [], ◌∷◌, some,
  length, get_elem?, ltb, Result, ok, panic, slice_bounds, ◌>>=◌, arith, Bool-cases,
}
use uranus.Vm.Stack.{Stack, push, pop, back, stack_limit, make_stack_func}

-- A number of pops, and the items that they take, the first of them first.
abbrev pub pop_all : ℕ → Stack → Result (List ℕ × Stack)
pop_all zero st = ok ([], st)
pop_all (suc n) st = pop st >>= λ (v, st1). pop_all n st1 >>= λ (items, st2). ok (v ∷ items, st2)

abbrev pub push_all : List ℕ → Stack → Stack
push_all [] st = st
push_all (d ∷ ds) st = push_all ds (push d st)

-- The pops succeed, Back sees beforehand what they take, and whatever is pushed then is within the
-- limit.
pub record IsRunnable (pops pushes : ℕ) (st : Stack) : Type 0 where
  pub items : List ℕ
  pub rest : Stack
  pub popped : pop_all pops st ≡ ok (items, rest)
  pub seen : (n : ℕ) → n < pops → (v : ℕ) × (get_elem? items n ≡ some v) × (back n st ≡ ok v)
  pub room :
      (results : List ℕ) → length results ≡ pushes → length (push_all results rest) ≤ stack_limit

-- A pop panics, or all of them succeed and whatever is pushed then is above the limit.
pub data IsRefused (pops pushes : ℕ) (st : Stack) : Type 0 where
  underflow : pop_all pops st ≡ panic slice_bounds → IsRefused pops pushes st
  overflow :
      (items : List ℕ) (rest : Stack)
      → pop_all pops st ≡ ok (items, rest)
      → ((results : List ℕ)
          → length results ≡ pushes
          → stack_limit < length (push_all results rest))
      → IsRefused pops pushes st

length-push_all : (ds : List ℕ) (st : Stack) → length (push_all ds st) ≡ length ds + length st
unfolding push
length-push_all [] st = omega arith
length-push_all (d ∷ ds) st = omega (arith, length-push_all ds (push d st))

record Popped (n : ℕ) (st : Stack) : Type 0 where
  items : List ℕ
  rest : Stack
  popped : pop_all n st ≡ ok (items, rest)
  seen : (i : ℕ) → i < n → (v : ℕ) × (get_elem? items i ≡ some v) × (back i st ≡ ok v)
  left : n + length rest ≡ length st

seen-cons :
    (x n : ℕ) (st : Stack) (p : Popped n st) (i : ℕ)
    → i < suc n
    → (v : ℕ) × (get_elem? (x ∷ p.items) i ≡ some v) × (back i (x ∷ st) ≡ ok v)
unfolding back
seen-cons x n st p zero h = (x, refl, refl)
seen-cons x n st p (suc i) h = p.seen i (omega (arith, h))

pop_all-Popped : (n : ℕ) (st : Stack) → n ≤ length st → Popped n st
unfolding pop
pop_all-Popped zero st h = record {
  items = [];
  rest = st;
  popped = refl;
  seen = λ i l. absurd (omega (arith, l));
  left = omega arith;
}
pop_all-Popped (suc n) [] h = absurd (omega (arith, h))
pop_all-Popped (suc n) (x ∷ st) h =
    let p = pop_all-Popped n st (omega (arith, h)) in
    record {
      items = x ∷ p.items;
      rest = p.rest;
      popped = rw p.popped refl;
      seen = seen-cons x n st p;
      left = omega (arith, p.left);
    }

pop_all-short : (n : ℕ) (st : Stack) → length st < n → pop_all n st ≡ panic slice_bounds
unfolding pop
pop_all-short zero st h = absurd (omega (arith, h))
pop_all-short (suc n) [] h = refl
pop_all-short (suc n) (x ∷ st) h = rw (pop_all-short n st (omega (arith, h))) refl

-- The check that makeStackFunc makes passes exactly the stacks on which an operation can run:
-- where it passes, all pops succeed, Back sees beforehand at each of their positions the item that
-- they take, and whatever results are pushed then are within the limit; where it does not, a pop
-- panics or any such results end above the limit.
pub make_stack_func-IsRunnable :
    (pops pushes : ℕ) (st : Stack)
    → ((make_stack_func pops pushes st ≡ true) × IsRunnable pops pushes st)
      ⊎ ((make_stack_func pops pushes st ≡ false) × IsRefused pops pushes st)
unfolding make_stack_func
make_stack_func-IsRunnable pops pushes st = elim (Bool-cases (ltb (length st) pops)) [
  | inl short ↦ inr (ground arith, underflow (pop_all-short pops st (ground arith)))
  | inr enough ↦
      let p = pop_all-Popped pops st (ground arith) in
      elim (Bool-cases (ltb stack_limit (length st + pushes - pops))) [
        | inl high ↦ inr (
          ground arith,
          overflow p.items p.rest p.popped
              (λ results e. ground (arith, e, p.left, length-push_all results p.rest)),
        )
        | inr low ↦ inl (
          ground arith,
          record {
            items = p.items;
            rest = p.rest;
            popped = p.popped;
            seen = p.seen;
            room = λ results e. ground (arith, e, p.left, length-push_all results p.rest);
          },
        )
      ]
]
