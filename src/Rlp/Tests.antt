-- ===== src/Rlp/Tests.antt =====
-- Strings and lists of several sizes, and the theorems about their encoding applied to them.
use uranus.Prelude.{ℕ, ◌≡◌, refl, List, [], ◌∷◌, ◌++◌, length, replicate, arith}
use uranus.Rlp.Encode.{encode_string, list_head, low_bytes}
use uranus.Rlp.Raw.{
  parsed, failed, canon_size, value_too_large, expected_list, expected_string, split, split_string,
  split_list, count_values, list_size,
}
use uranus.Rlp.Splits.{split_string-encode_string, split_list-list_head}
use uranus.Rlp.Counts.{encode_strings, IsSized, count_values-encode_strings, list_size-list_head}

abbrev dog : List ℕ
dog = 0x64 ∷ 0x6F ∷ 0x67 ∷ []

encode_dog : encode_string dog ≡ 0x83 ∷ 0x64 ∷ 0x6F ∷ 0x67 ∷ []
unfolding encode_string
encode_dog = refl

encode_byte : encode_string (0x0F ∷ []) ≡ 0x0F ∷ []
unfolding encode_string
encode_byte = refl

-- The content that the example for lists has: 60 bytes, so that the size takes a byte of its own.
abbrev zeros : List ℕ
zeros = replicate 60 0

head_of_zeros : list_head (length zeros) ≡ 0xF8 ∷ 60 ∷ []
unfolding list_head low_bytes
head_of_zeros = refl

-- A single byte with a header, a size of 55 after a long tag, and a string that is cut off.
not_canonical_byte : split (0x81 ∷ 5 ∷ []) ≡ failed canon_size
unfolding split
not_canonical_byte = refl

not_canonical_size : split (0xB8 ∷ 55 ∷ dog) ≡ failed canon_size
unfolding split
not_canonical_size = refl

cut_off : split (0x83 ∷ 0x64 ∷ []) ≡ failed value_too_large
unfolding split
cut_off = refl

split_string-encode_string_example :
    (split_string (encode_string dog ++ zeros) ≡ parsed (dog, zeros))
    × (split_list (encode_string dog ++ zeros) ≡ failed expected_list)
split_string-encode_string_example = split_string-encode_string dog zeros (omega arith)

split_list-list_head_example :
    (split_list (list_head (length zeros) ++ (zeros ++ dog)) ≡ parsed (zeros, dog))
    × (split_string (list_head (length zeros) ++ (zeros ++ dog)) ≡ failed expected_string)
split_list-list_head_example = split_list-list_head zeros dog (omega arith)

abbrev strings : List (List ℕ)
strings = dog ∷ [] ∷ (5 ∷ []) ∷ zeros ∷ []

strings-IsSized : IsSized strings
strings-IsSized = (omega arith, (omega arith, (omega arith, (omega arith, tt))))

count_values-encode_strings_example : count_values (encode_strings strings) ≡ parsed 4
count_values-encode_strings_example = count_values-encode_strings strings strings-IsSized

list_size-list_head_example : list_size (length zeros) ≡ length (list_head (length zeros) ++ zeros)
list_size-list_head_example = list_size-list_head zeros (omega arith)
