-- ===== src/Mtp/Keys.antt =====
-- common/mtp/util.go: keys as bytes, as nibbles with a terminator of 16, and in the compact form of
-- a node's encoding.
use uranus.Prelude.{
  ℕ, suc, ◌+◌, ◌-◌, ◌*◌, ◌/◌, ◌%◌, Bool, true, false, List, [], ◌∷◌, ◌++◌, length, take, drop, ltb,
  ◌==◌, if◌then◌else◌, ◌&&◌, get_or, leb,
}

-- `keybytesToHex`: two nibbles for each byte, and the terminator.
unfoldable pub keybytes_to_hex : List ℕ → List ℕ
keybytes_to_hex [] = 16 ∷ []
keybytes_to_hex (b ∷ str) = (b / 16) ∷ (b % 16) ∷ keybytes_to_hex str

-- `hasTerm`: is the last nibble the terminator?
unfoldable pub has_term : List ℕ → Bool
has_term s = ltb 0 (length s) && (get_or s (length s - 1) 0 == 16)

-- `decodeNibbles`: nibbles, two to a byte. The source panics on an odd number of them.
unfoldable pub decode_nibbles : List ℕ → List ℕ
decode_nibbles [] = []
decode_nibbles (n ∷ []) = []
decode_nibbles (n ∷ m ∷ nibbles) = (n * 16 + m) ∷ decode_nibbles nibbles

-- The bytes after the terminator is split off: a byte of flags, with the first nibble where their
-- number is odd, and the others in pairs.
unfoldable pub pack : ℕ → List ℕ → List ℕ
unfolding decode_nibbles
pack flag hex =
    if length hex % 2 == 1
    then (flag + 16 + get_or hex 0 0) ∷ decode_nibbles (drop 1 hex)
    else flag ∷ decode_nibbles hex

unfoldable pub hex_to_compact : List ℕ → List ℕ
unfolding has_term pack
hex_to_compact hex = if has_term hex then pack 32 (take (length hex - 1) hex) else pack 0 hex

-- `base[0]` of an empty slice panics in the source; the compact form of a key is never empty.
unfoldable pub compact_to_hex : List ℕ → List ℕ
unfolding keybytes_to_hex
compact_to_hex compact =
    let all = keybytes_to_hex compact in
    let base = take (length all - 1) all in
    let ended = if leb 2 (get_or base 0 0) then base ++ 16 ∷ [] else base in
    drop (2 - get_or ended 0 0 % 2) ended

-- `prefixLen`
unfoldable pub prefix_len : List ℕ → List ℕ → ℕ
prefix_len [] bs = 0
prefix_len (a ∷ xs) [] = 0
prefix_len (a ∷ xs) (b ∷ bs) = if a == b then suc (prefix_len xs bs) else 0

-- `bytes.Equal`
unfoldable pub same : List ℕ → List ℕ → Bool
same [] [] = true
same [] (b ∷ bs) = false
same (a ∷ xs) [] = false
same (a ∷ xs) (b ∷ bs) = (a == b) && same xs bs
