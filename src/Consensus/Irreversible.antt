-- ===== src/Consensus/Irreversible.antt =====
-- consensus/dpos/dpos.go, storeBFTConfirmedBlockHeader: the height that the confirmations of the
-- validators make irreversible.
use uranus.Prelude.{
  ℕ, zero, suc, ◌+◌, ◌-◌, ◌*◌, ◌/◌, ◌≤◌, ◌<◌, ◌≡◌, refl, ap, ◌∙◌, Option, none, some, List, [], ◌∷◌,
  length, get_or, leb, ◌==◌, if◌then◌else◌, arith, inl, inr, Bool-cases, All, All-mono,
}

-- `sort.Sort(irreversibles)`
unfoldable pub insert_height : ℕ → List ℕ → List ℕ
insert_height h [] = h ∷ []
insert_height h (x ∷ xs) = if leb h x then h ∷ x ∷ xs else x ∷ insert_height h xs

unfoldable pub sort_heights : List ℕ → List ℕ
unfolding insert_height
sort_heights [] = []
sort_heights (x ∷ xs) = insert_height x (sort_heights xs)

-- The height that is stored, from the heights that the validators have confirmed; none where there
-- are none.
unfoldable pub irreversible_height : List ℕ → Option ℕ
unfolding sort_heights
irreversible_height irreversibles =
    if length irreversibles == 0
    then none
    else some (get_or (sort_heights irreversibles) ((length irreversibles - 1) / 3) 0)

-- How many confirmations reach a height.
abbrev pub reaching : ℕ → List ℕ → ℕ
reaching h [] = 0
reaching h (x ∷ xs) = (if leb h x then 1 else 0) + reaching h xs

abbrev IsSorted : List ℕ → Type 0
IsSorted [] = Unit
IsSorted (x ∷ xs) = All (λ y. x ≤ y) xs × IsSorted xs

All-insert_height :
    (n h : ℕ) (xs : List ℕ) → n ≤ h → All (λ y. n ≤ y) xs → All (λ y. n ≤ y) (insert_height h xs)
unfolding insert_height
All-insert_height n h [] le a = (le, tt)
All-insert_height n h (x ∷ xs) le a = elim (Bool-cases (leb h x)) [
  | inl e ↦ rw e (le, a)
  | inr e ↦ rw e (a.0, All-insert_height n h xs le a.1)
]

insert_height-IsSorted : (h : ℕ) (xs : List ℕ) → IsSorted xs → IsSorted (insert_height h xs)
unfolding insert_height
insert_height-IsSorted h [] s = (tt, tt)
insert_height-IsSorted h (x ∷ xs) s = elim (Bool-cases (leb h x)) [
  | inl e ↦
      rw e ((ground arith, All-mono (λ y. x ≤ y) (λ y. h ≤ y) xs (λ y l. ground arith) s.0), s)
  | inr e ↦ rw e (All-insert_height x h xs (ground arith) s.0, insert_height-IsSorted h xs s.1)
]

sort_heights-IsSorted : (xs : List ℕ) → IsSorted (sort_heights xs)
unfolding sort_heights
sort_heights-IsSorted [] = tt
sort_heights-IsSorted (x ∷ xs) =
    insert_height-IsSorted x (sort_heights xs) (sort_heights-IsSorted xs)

reaching-insert_height :
    (n h : ℕ) (xs : List ℕ)
    → reaching n (insert_height h xs) ≡ (if leb n h then 1 else 0) + reaching n xs
unfolding insert_height
reaching-insert_height n h [] = refl
reaching-insert_height n h (x ∷ xs) = elim (Bool-cases (leb h x)) [
  | inl e ↦ rw e refl
  | inr e ↦ rw e (omega (arith, reaching-insert_height n h xs))
]

-- Sorting changes neither how many there are nor how many reach a height.
reaching-sort_heights : (n : ℕ) (xs : List ℕ) → reaching n (sort_heights xs) ≡ reaching n xs
unfolding sort_heights
reaching-sort_heights n [] = refl
reaching-sort_heights n (x ∷ xs) =
    reaching-insert_height n x (sort_heights xs)
    ∙ ap (λ k. (if leb n x then 1 else 0) + k) (reaching-sort_heights n xs)

length-insert_height : (h : ℕ) (xs : List ℕ) → length (insert_height h xs) ≡ suc (length xs)
unfolding insert_height
length-insert_height h [] = refl
length-insert_height h (x ∷ xs) = ground (arith, length-insert_height h xs)

length-sort_heights : (xs : List ℕ) → length (sort_heights xs) ≡ length xs
unfolding sort_heights
length-sort_heights [] = refl
length-sort_heights (x ∷ xs) =
    length-insert_height x (sort_heights xs) ∙ ap suc (length-sort_heights xs)

reaching-all : (n : ℕ) (xs : List ℕ) → All (λ y. n ≤ y) xs → reaching n xs ≡ length xs
reaching-all n [] a = refl
reaching-all n (x ∷ xs) a = ground (arith, a.0, reaching-all n xs a.1)

-- From an index of a sorted list on, everything reaches what stands there.
reaching-index :
    (i : ℕ) (xs : List ℕ)
    → IsSorted xs
    → i < length xs
    → length xs ≤ i + reaching (get_or xs i 0) xs
reaching-index i [] s lt = absurd (omega arith)
reaching-index zero (x ∷ xs) s lt = ground (arith, reaching-all x xs s.0)
reaching-index (suc i) (x ∷ xs) s lt = ground (arith, reaching-index i xs s.1)

-- More than two thirds of the validators' confirmations reach the height that
-- storeBFTConfirmedBlockHeader stores as irreversible.
pub irreversible_height-reaching :
    (irreversibles : List ℕ) (h : ℕ)
    → irreversible_height irreversibles ≡ some h
    → 2 * length irreversibles < 3 * reaching h irreversibles
unfolding irreversible_height
irreversible_height-reaching xs h e = elim (Bool-cases (length xs == 0)) [
  | inl nil ↦ let no : none ≡ some h = rw nil at e in absurd (cc)
  | inr more ↦
      let same : some (get_or (sort_heights xs) ((length xs - 1) / 3) 0) ≡ some h = rw more at e in
      let at : get_or (sort_heights xs) ((length xs - 1) / 3) 0 ≡ h = cc in
      let count =
        reaching-index ((length xs - 1) / 3) (sort_heights xs) (sort_heights-IsSorted xs)
          (ground (arith, length-sort_heights xs)) in
      ground (arith, length-sort_heights xs, reaching-sort_heights h xs)
]
