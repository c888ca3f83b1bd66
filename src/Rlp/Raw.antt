-- ===== src/Rlp/Raw.antt =====
-- common/rlp/raw.go: the first value of an encoding is split off, and the values are counted. With an
-- error the source hands back its input, which the model leaves out.
use uranus.Prelude.{
  ℕ, zero, suc, ◌+◌, ◌-◌, ◌*◌, ◌%◌, ◌^◌, Bool, List, [], ◌∷◌, length, take, drop, ltb, ◌==◌, ◌&&◌,
  ◌||◌, if◌then◌else◌, get_or, true, false,
}
use uranus.Rlp.Encode.{head_size}

pub data Kind : Type 0 where
  byte : Kind
  string : Kind
  list : Kind

pub data RlpError : Type 0 where
  unexpected_eof : RlpError
  canon_size : RlpError
  value_too_large : RlpError
  expected_string : RlpError
  expected_list : RlpError

pub data Parsed {ℓ} (A : Type ℓ) : Type ℓ where
  parsed : A → Parsed A
  failed : RlpError → Parsed A

abbrev pub then_parse {ℓ κ} : {A : Type ℓ} {B : Type κ} → Parsed A → (A → Parsed B) → Parsed B
then_parse (parsed a) next = next a
then_parse (failed why) next = failed why

-- A number from its bytes, the highest of them first, after the number of those read before.
unfoldable pub big_endian : ℕ → List ℕ → ℕ
big_endian s [] = s
big_endian s (b ∷ bs) = big_endian (s * 2 ^ 8 + b) bs

unfoldable pub read_size : List ℕ → ℕ → Parsed ℕ
unfolding big_endian
read_size b slen =
    let s = big_endian 0 (take slen b) in
    if ltb (length b) slen
    then failed unexpected_eof
    else if ltb s 56 || (get_or b 0 0 == 0)
    then failed canon_size
    else parsed s

-- The kind that the first byte tells, the size of the tag, and the size of the content.
unfoldable pub read_tag : ℕ → List ℕ → Parsed (Kind × ℕ × ℕ)
unfolding read_size
read_tag b rest =
    if ltb b 0x80
    then parsed (byte, 0, 1)
    else if ltb b 0xB8
    then (if (b - 0x80 == 1) && (ltb 0 (length rest) && ltb (get_or rest 0 0) 128)
        then failed canon_size
        else parsed (string, 1, b - 0x80))
    else if ltb b 0xC0
    then then_parse (read_size rest (b - 0xB7)) (λ s. parsed (string, b - 0xB7 + 1, s))
    else if ltb b 0xF8
    then parsed (list, 1, b - 0xC0)
    else then_parse (read_size rest (b - 0xF7)) (λ s. parsed (list, b - 0xF7 + 1, s))

-- A content that is larger than what is left of the input is rejected.
unfoldable pub within : ℕ → Kind × ℕ × ℕ → Parsed (Kind × ℕ × ℕ)
within len (k, tagsize, contentsize) =
    if ltb (len - tagsize) contentsize
    then failed value_too_large
    else parsed (k, tagsize, contentsize)

unfoldable pub read_kind : List ℕ → Parsed (Kind × ℕ × ℕ)
unfolding read_tag within
read_kind [] = failed unexpected_eof
read_kind (b ∷ rest) = then_parse (read_tag b rest) (within (suc (length rest)))

unfoldable pub split : List ℕ → Parsed (Kind × List ℕ × List ℕ)
unfolding read_kind
split b =
    then_parse (read_kind b) (λ (k, ts, cs). parsed (k, take cs (drop ts b), drop (ts + cs) b))

abbrev pub is_list : Kind → Bool
is_list byte = false
is_list string = false
is_list list = true

unfoldable pub split_string : List ℕ → Parsed (List ℕ × List ℕ)
unfolding split
split_string b =
    then_parse (split b)
      (λ (k, content, rest). if is_list k then failed expected_string else parsed (content, rest))

unfoldable pub split_list : List ℕ → Parsed (List ℕ × List ℕ)
unfolding split
split_list b =
    then_parse (split b)
      (λ (k, content, rest). if is_list k then parsed (content, rest) else failed expected_list)

-- The loop of `CountValues`, on fuel.
unfoldable pub count_values_from : ℕ → ℕ → List ℕ → Parsed ℕ
unfolding read_kind
count_values_from fuel i [] = parsed i
count_values_from zero i (x ∷ b) = parsed i
count_values_from (suc fuel) i (x ∷ b) =
    then_parse (read_kind (x ∷ b))
      (λ (k, tagsize, size). count_values_from fuel (i + 1) (drop (tagsize + size) (x ∷ b)))

-- Each value takes at least a byte.
unfoldable pub count_values : List ℕ → Parsed ℕ
unfolding count_values_from
count_values b = count_values_from (length b) 0 b

unfoldable pub list_size : ℕ → ℕ
unfolding head_size
list_size content_size = (head_size content_size + content_size) % 2 ^ 64
