-- ===== src/Rlp/Encode.antt =====
-- common/rlp/encode.go: the sizes, headers and strings that an encoder writes. A slice of bytes is a
-- list of numbers.
use uranus.Prelude.{
  ℕ, zero, suc, ◌+◌, ◌/◌, ◌%◌, ◌^◌, List, [], ◌∷◌, ◌++◌, length, ltb, leb, ◌==◌, ◌&&◌,
  if◌then◌else◌, get_or,
}

-- The lowest bytes of a number, the highest of them first.
unfoldable pub low_bytes : ℕ → ℕ → List ℕ
low_bytes zero i = []
low_bytes (suc n) i = low_bytes n (i / 2 ^ 8) ++ (i % 2 ^ 8) ∷ []

-- `putint`
unfoldable pub put_int : ℕ → List ℕ
unfolding low_bytes
put_int i =
    if ltb i (2 ^ 8)
    then low_bytes 1 i
    else if ltb i (2 ^ 16)
    then low_bytes 2 i
    else if ltb i (2 ^ 24)
    then low_bytes 3 i
    else if ltb i (2 ^ 32)
    then low_bytes 4 i
    else if ltb i (2 ^ 40)
    then low_bytes 5 i
    else if ltb i (2 ^ 48)
    then low_bytes 6 i
    else if ltb i (2 ^ 56)
    then low_bytes 7 i
    else low_bytes 8 i

-- The loop of `intsize`, from a size on. A number of 64 bits is 0 after eight shifts.
unfoldable pub int_size_from : ℕ → ℕ → ℕ → ℕ
int_size_from zero size i = size
int_size_from (suc fuel) size i =
    let rest = int_size_from fuel (size + 1) (i / 2 ^ 8) in if i / 2 ^ 8 == 0 then size else rest

unfoldable pub int_size : ℕ → ℕ
unfolding int_size_from
int_size i = int_size_from 8 1 i

unfoldable pub head_size : ℕ → ℕ
unfolding int_size
head_size size = if ltb size 56 then 1 else 1 + int_size size

-- `puthead`: the bytes that it writes.
unfoldable pub put_head : ℕ → ℕ → ℕ → List ℕ
unfolding put_int
put_head small_tag large_tag size =
    if ltb size 56
    then ((small_tag + size % 2 ^ 8) % 2 ^ 8) ∷ []
    else ((large_tag + length (put_int size) % 2 ^ 8) % 2 ^ 8) ∷ put_int size

-- `listhead.encode`, of a list whose content has the size.
unfoldable pub list_head : ℕ → List ℕ
unfolding put_head
list_head size = put_head 0xC0 0xF7 size

unfoldable pub encode_string_header : ℕ → List ℕ
unfolding put_int
encode_string_header size =
    if ltb size 56
    then ((0x80 + size % 2 ^ 8) % 2 ^ 8) ∷ []
    else ((0xB7 + length (put_int size) % 2 ^ 8) % 2 ^ 8) ∷ put_int size

unfoldable pub encode_string : List ℕ → List ℕ
unfolding encode_string_header
encode_string b =
    if (length b == 1) && leb (get_or b 0 0) 0x7F
    then get_or b 0 0 ∷ []
    else encode_string_header (length b) ++ b
