-- ===== src/Mtp/Compact.antt =====
-- common/mtp/util.go: the compact form of a key gives the key back, with its terminator if it had one.
use uranus.Prelude.{
  ℕ, zero, suc, ◌+◌, ◌-◌, ◌/◌, ◌%◌, ◌<◌, ◌≡◌, refl, true, false, List, [], ◌∷◌, ◌++◌, ◌==◌, ltb,
  leb, if◌then◌else◌, arith, inl, inr, Bool-cases, length, length-append, take, drop, get_or, All,
}
use uranus.Mtp.Keys.{
  keybytes_to_hex, has_term, decode_nibbles, pack, hex_to_compact, compact_to_hex,
}

abbrev pub IsNibbles : List ℕ → Type 0
IsNibbles n = All (λ x. x < 16) n

-- The last element, and all but the last.
get_or-append_last : (a : List ℕ) (x : ℕ) → get_or (a ++ x ∷ []) (length a) 0 ≡ x
get_or-append_last [] x = refl
get_or-append_last (y ∷ a) x = get_or-append_last a x

take-append_last : (a : List ℕ) (x : ℕ) → take (length (a ++ x ∷ []) - 1) (a ++ x ∷ []) ≡ a
take-append_last [] x = refl
take-append_last (y ∷ a) x =
    let len : suc (length (a ++ x ∷ [])) - 1 ≡ suc (length (a ++ x ∷ []) - 1) =
      omega (arith, length-append a (x ∷ [])) in
    rw (len, take-append_last a x) refl

has_term-append : (n : List ℕ) → has_term (n ++ 16 ∷ []) ≡ true
unfolding has_term
has_term-append n =
    let len : length (n ++ 16 ∷ []) - 1 ≡ length n = omega (arith, length-append n (16 ∷ [])) in
    let some_left : ltb 0 (length (n ++ 16 ∷ [])) ≡ true =
      ground (arith, length-append n (16 ∷ [])) in
    rw (has_term, len, some_left, get_or-append_last n 16) refl

get_or-lt : (n : List ℕ) (i : ℕ) → IsNibbles n → get_or n i 0 < 16
get_or-lt [] i h = omega arith
get_or-lt (x ∷ n) zero h = h.0
get_or-lt (x ∷ n) (suc i) h = get_or-lt n i h.1

has_term-nibbles : (n : List ℕ) → IsNibbles n → has_term n ≡ false
unfolding has_term
has_term-nibbles n h = ground (arith, get_or-lt n (length n - 1) h)

keybytes_to_hex-decode_nibbles :
    (n : List ℕ)
    → IsNibbles n
    → length n % 2 ≡ 0
    → keybytes_to_hex (decode_nibbles n) ≡ n ++ 16 ∷ []
unfolding keybytes_to_hex decode_nibbles
keybytes_to_hex-decode_nibbles [] h e = refl
keybytes_to_hex-decode_nibbles (x ∷ []) h e = absurd (omega arith)
keybytes_to_hex-decode_nibbles (x ∷ y ∷ n) h e =
    ground (arith, keybytes_to_hex-decode_nibbles n h.1.1)

-- The bytes of a key, as nibbles again: the flag, a nibble of padding where the number is even, the
-- key, and what `keybytes_to_hex` adds.
keybytes_to_hex-pack_even :
    (flag : ℕ) (n : List ℕ)
    → IsNibbles n
    → length n % 2 ≡ 0
    → keybytes_to_hex (pack flag n) ≡ ((flag / 16) ∷ (flag % 16) ∷ n) ++ 16 ∷ []
unfolding pack keybytes_to_hex
keybytes_to_hex-pack_even flag n h e =
    let even : (length n % 2 == 1) ≡ false = ground arith in
    rw (even, keybytes_to_hex, keybytes_to_hex-decode_nibbles n h e) refl

keybytes_to_hex-pack_odd :
    (flag x : ℕ) (n : List ℕ)
    → IsNibbles (x ∷ n)
    → length n % 2 ≡ 0
    → flag % 16 ≡ 0
    → keybytes_to_hex (pack flag (x ∷ n)) ≡ ((flag / 16 + 1) ∷ x ∷ n) ++ 16 ∷ []
unfolding pack keybytes_to_hex
keybytes_to_hex-pack_odd flag x n h e z =
    let odd : (suc (length n) % 2 == 1) ≡ true = ground arith in
    let hi : (flag + 16 + x) / 16 ≡ flag / 16 + 1 = omega (arith, h.0) in
    let lo : (flag + 16 + x) % 16 ≡ x = omega (arith, h.0) in
    rw (odd, keybytes_to_hex, hi, lo, keybytes_to_hex-decode_nibbles n h.1 e) refl

-- What `compact_to_hex` makes of the nibbles `base` with a terminator after them.
from_base :
    (compact base : List ℕ)
    → keybytes_to_hex compact ≡ base ++ 16 ∷ []
    → compact_to_hex compact ≡ (
        let ended = if leb 2 (get_or base 0 0) then base ++ 16 ∷ [] else base in
        drop (2 - get_or ended 0 0 % 2) ended)
unfolding compact_to_hex
from_base compact base e = rw (compact_to_hex, e, take-append_last base 16) refl

compact_to_hex-pack :
    (n : List ℕ)
    → IsNibbles n
    → (compact_to_hex (pack 0 n) ≡ n) × (compact_to_hex (pack 32 n) ≡ n ++ 16 ∷ [])
compact_to_hex-pack [] h = (
  from_base (pack 0 []) (0 ∷ 0 ∷ []) (keybytes_to_hex-pack_even 0 [] h refl),
  from_base (pack 32 []) (2 ∷ 0 ∷ []) (keybytes_to_hex-pack_even 32 [] h refl),
)
compact_to_hex-pack (x ∷ n) h = elim (Bool-cases (length n % 2 == 0)) [
  | inl odd ↦
      let e : length n % 2 ≡ 0 = ground arith in
      (
        from_base (pack 0 (x ∷ n)) (1 ∷ x ∷ n) (keybytes_to_hex-pack_odd 0 x n h e refl),
        from_base (pack 32 (x ∷ n)) (3 ∷ x ∷ n) (keybytes_to_hex-pack_odd 32 x n h e refl),
      )
  | inr even ↦
      let e : length (x ∷ n) % 2 ≡ 0 = ground arith in
      (
        from_base (pack 0 (x ∷ n)) (0 ∷ 0 ∷ x ∷ n) (keybytes_to_hex-pack_even 0 (x ∷ n) h e),
        from_base (pack 32 (x ∷ n)) (2 ∷ 0 ∷ x ∷ n) (keybytes_to_hex-pack_even 32 (x ∷ n) h e),
      )
]

-- compactToHex undoes hexToCompact on every key of nibbles below 16, of odd and of even length,
-- both without the terminator and with it.
pub compact_to_hex-hex_to_compact :
    (n : List ℕ)
    → IsNibbles n
    → (compact_to_hex (hex_to_compact n) ≡ n)
      × (compact_to_hex (hex_to_compact (n ++ 16 ∷ [])) ≡ n ++ 16 ∷ [])
unfolding hex_to_compact
compact_to_hex-hex_to_compact n h = (
  rw (hex_to_compact, has_term-nibbles n h) (compact_to_hex-pack n h).0,
  rw (hex_to_compact, has_term-append n, take-append_last n 16) (compact_to_hex-pack n h).1,
)
