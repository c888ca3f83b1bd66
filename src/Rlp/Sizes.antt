-- ===== src/Rlp/Sizes.antt =====
-- common/rlp: the bytes of a number, as putint writes them and readSize reads them.
use uranus.Prelude.{
  ℕ, zero, suc, ◌+◌, ◌*◌, ◌/◌, ◌%◌, ◌^◌, ◌<◌, ◌≤◌, ◌≡◌, ◌⊎◌, refl, List, [], ◌∷◌, ◌++◌, length,
  length-append, take, drop, ltb, ◌==◌, get_or, arith, inl, inr, Bool-cases, ltb→lt, true, false,
}
use uranus.Rlp.Encode.{low_bytes, put_int, int_size_from}
use uranus.Rlp.Raw.{big_endian}

module _ {ℓ} {A : Type ℓ} where
  pub take-append : (a b : List A) → take (length a) (a ++ b) ≡ a
  take-append [] b = refl
  take-append (x ∷ a) b = rw (take-append a b) refl

  pub drop-append : (a b : List A) → drop (length a) (a ++ b) ≡ b
  drop-append [] b = refl
  drop-append (x ∷ a) b = drop-append a b

  pub get_or-append : (a b : List A) (d : A) → 0 < length a → get_or (a ++ b) 0 d ≡ get_or a 0 d
  get_or-append [] b d h = absurd (omega arith)
  get_or-append (x ∷ a) b d h = refl

pub length-low_bytes : (n i : ℕ) → length (low_bytes n i) ≡ n
unfolding low_bytes
length-low_bytes zero i = refl
length-low_bytes (suc n) i = omega (
  arith,
  length-append (low_bytes n (i / 2 ^ 8)) ((i % 2 ^ 8) ∷ []),
  length-low_bytes n (i / 2 ^ 8),
)

big_endian-append :
    (s : ℕ) (a : List ℕ) (b : ℕ) → big_endian s (a ++ b ∷ []) ≡ big_endian s a * 2 ^ 8 + b
unfolding big_endian
big_endian-append s [] b = refl
big_endian-append s (x ∷ a) b = big_endian-append (s * 2 ^ 8 + x) a b

-- How many numbers a number of bytes can hold.
abbrev pub bound : ℕ → ℕ
bound zero = 1
bound (suc n) = 2 ^ 8 * bound n

-- The lowest bytes are the number where it has no more.
pub big_endian-low_bytes : (n i : ℕ) → i < bound n → big_endian 0 (low_bytes n i) ≡ i
unfolding big_endian low_bytes
big_endian-low_bytes zero i h = omega arith
big_endian-low_bytes (suc n) i h =
    let small : i / 2 ^ 8 < bound n = omega arith in
    omega (
      arith,
      big_endian-append 0 (low_bytes n (i / 2 ^ 8)) (i % 2 ^ 8),
      big_endian-low_bytes n (i / 2 ^ 8) small,
    )

-- The first of the bytes is not 0 where the number needs it.
pub first_byte : (n i : ℕ) → bound n ≤ i → i < bound (suc n) → 0 < get_or (low_bytes (suc n) i) 0 0
unfolding low_bytes
first_byte zero i h k = omega arith
first_byte (suc n) i h k =
    let left : bound n ≤ i / 2 ^ 8 = omega arith in
    let right : i / 2 ^ 8 < bound (suc n) = omega arith in
    let some_left : 0 < length (low_bytes (suc n) (i / 2 ^ 8)) =
      omega (arith, length-low_bytes (suc n) (i / 2 ^ 8)) in
    omega (
      arith,
      get_or-append (low_bytes (suc n) (i / 2 ^ 8)) ((i % 2 ^ 8) ∷ []) 0 some_left,
      first_byte n (i / 2 ^ 8) left right,
    )

bound-pos : (n : ℕ) → 1 ≤ bound n
bound-pos zero = omega arith
bound-pos (suc n) = omega (arith, bound-pos n)

-- The loop counts the bytes that a number needs.
pub int_size_from-bound :
    (fuel n size i : ℕ)
    → n < fuel
    → (n ≡ 0) ⊎ (bound n ≤ i)
    → i < bound (suc n)
    → int_size_from fuel size i ≡ size + n
unfolding int_size_from
int_size_from-bound zero n size i h k l = absurd (omega arith)
int_size_from-bound (suc fuel) zero size i h k l =
    let done : (i / 2 ^ 8 == 0) ≡ true = ground arith in rw done (omega arith)
int_size_from-bound (suc fuel) (suc n) size i h (inl z) l = absurd (omega arith)
int_size_from-bound (suc fuel) (suc n) size i h (inr k) l =
    let left : bound n ≤ i / 2 ^ 8 = omega arith in
    let pos : 1 ≤ bound n = bound-pos n in
    let more : (i / 2 ^ 8 == 0) ≡ false = ground arith in
    let right : i / 2 ^ 8 < bound (suc n) = omega arith in
    rw more (
      omega
        (arith, int_size_from-bound fuel n (size + 1) (i / 2 ^ 8) (omega arith) (inr left) right))

-- How `put_int` writes a number of 64 bits: as its lowest bytes, no more than it needs, and as many
-- as `int_size` says.
pub record Written (i : ℕ) : Type 0 where
  pub above : ℕ
  pub above<8 : above < 8
  pub bytes : put_int i ≡ low_bytes (suc above) i
  pub least : (above ≡ 0) ⊎ (bound above ≤ i)
  pub most : i < bound (suc above)

written :
    {i : ℕ} (n : ℕ)
    → ltb n 8 ≡ true
    → put_int i ≡ low_bytes (suc n) i
    → bound n ≤ i
    → i < bound (suc n)
    → Written i
written n h e l m = record { above = n; above<8 = ltb→lt n 8 h; bytes = e; least = inr l; most = m }

pub put_int-Written : (i : ℕ) → i < 2 ^ 64 → Written i
unfolding put_int
put_int-Written i h = elim (Bool-cases (ltb i (2 ^ 8))) [
  | inl a ↦ record {
    above = 0;
    above<8 = omega arith;
    bytes = rw a refl;
    least = inl refl;
    most = ground arith;
  }
  | inr a ↦ elim (Bool-cases (ltb i (2 ^ 16))) [
    | inl b ↦ written 1 refl (rw (a, b) refl) (ground arith) (ground arith)
    | inr b ↦ elim (Bool-cases (ltb i (2 ^ 24))) [
      | inl c ↦ written 2 refl (rw (a, b, c) refl) (ground arith) (ground arith)
      | inr c ↦ elim (Bool-cases (ltb i (2 ^ 32))) [
        | inl d ↦ written 3 refl (rw (a, b, c, d) refl) (ground arith) (ground arith)
        | inr d ↦ elim (Bool-cases (ltb i (2 ^ 40))) [
          | inl e ↦ written 4 refl (rw (a, b, c, d, e) refl) (ground arith) (ground arith)
          | inr e ↦ elim (Bool-cases (ltb i (2 ^ 48))) [
            | inl f ↦ written 5 refl (rw (a, b, c, d, e, f) refl) (ground arith) (ground arith)
            | inr f ↦ elim (Bool-cases (ltb i (2 ^ 56))) [
              | inl g ↦ written 6 refl (rw (a, b, c, d, e, f, g) refl) (ground arith) (ground arith)
              | inr g ↦ written 7 refl (rw (a, b, c, d, e, f, g) refl) (ground arith) (ground arith)
            ]
          ]
        ]
      ]
    ]
  ]
]
