-- ===== src/Rlp/Counts.antt =====
-- common/rlp: CountValues on strings that were encoded one after the other, and the sizes that
-- ListSize predicts.
use uranus.Prelude.{
  ℕ, zero, suc, ◌+◌, ◌-◌, ◌^◌, ◌<◌, ◌≤◌, ◌≡◌, refl, ap, ◌∙◌, List, [], ◌∷◌, ◌++◌, length,
  length-append, drop, arith, All,
}
use uranus.Rlp.Encode.{encode_string, list_head}
use uranus.Rlp.Raw.{Kind, parsed, read_kind, count_values, count_values_from, list_size}
use uranus.Rlp.Sizes.{drop-append}
use uranus.Rlp.Headers.{length-put_head, length-list_head}
use uranus.Rlp.Splits.{IsRead, encode_string-IsRead, drop-add}

-- Strings that are encoded one after the other.
abbrev pub encode_strings : List (List ℕ) → List ℕ
encode_strings [] = []
encode_strings (b ∷ bs) = encode_string b ++ encode_strings bs

abbrev pub IsSized : List (List ℕ) → Type 0
IsSized bs = All (λ b. length b < 2 ^ 64) bs

count_values_from-read :
    (fuel i : ℕ) (all : List ℕ) (k : Kind) (ts cs : ℕ)
    → read_kind all ≡ parsed (k, ts, cs)
    → count_values_from (suc fuel) i all ≡ count_values_from fuel (i + 1) (drop (ts + cs) all)
unfolding count_values_from read_kind
count_values_from-read fuel i [] k ts cs e = absurd cc
count_values_from-read fuel i (x ∷ all) k ts cs e = rw e refl

count_values_from-step :
    (fuel i : ℕ) (rest b : List ℕ)
    → IsRead b rest
    → count_values_from (suc fuel) i (encode_string b ++ rest) ≡ count_values_from fuel (i + 1) rest
count_values_from-step fuel i rest b r =
    let after : drop (r.tagsize + length b) (encode_string b ++ rest) ≡ rest =
      rw (drop-add r.tagsize (length b) (encode_string b ++ rest), r.content)
        (drop-append b rest) in
    count_values_from-read fuel i (encode_string b ++ rest) r.kind r.tagsize (length b) r.read
    ∙ ap (count_values_from fuel (i + 1)) after

count_values_from-encode_strings :
    (fuel i : ℕ) (bs : List (List ℕ))
    → IsSized bs
    → length (encode_strings bs) ≤ fuel
    → count_values_from fuel i (encode_strings bs) ≡ parsed (i + length bs)
unfolding count_values_from
count_values_from-encode_strings fuel i [] h k =
    let none_more : i + 0 ≡ i = omega arith in rw none_more (by_cases fuel)
  where
    by_cases : (fuel : ℕ) → count_values_from fuel i [] ≡ parsed i
    by_cases zero = refl
    by_cases (suc fuel) = refl
count_values_from-encode_strings zero i (b ∷ bs) h k =
    let r = encode_string-IsRead b (encode_strings bs) h.0 in
    absurd
      (omega (arith, length-append (encode_string b) (encode_strings bs), r.sizes, r.some_byte))
count_values_from-encode_strings (suc fuel) i (b ∷ bs) h k =
    let rest = encode_strings bs in
    let r = encode_string-IsRead b rest h.0 in
    let left : length rest ≤ fuel =
      omega (arith, length-append (encode_string b) rest, r.sizes, r.some_byte) in
    let count : i + 1 + length bs ≡ i + suc (length bs) = omega arith in
    count_values_from-step fuel i rest b r
    ∙ count_values_from-encode_strings fuel (i + 1) bs h.1 left
    ∙ ap parsed count

-- CountValues of strings that were encoded one after the other, each of a size that fits 64
-- bits, ends with their number, for any number of them.
pub count_values-encode_strings :
    (bs : List (List ℕ)) → IsSized bs → count_values (encode_strings bs) ≡ parsed (length bs)
unfolding count_values
count_values-encode_strings bs h =
    let none_before : 0 + length bs ≡ length bs = omega arith in
    count_values_from-encode_strings (length (encode_strings bs)) 0 bs h (omega arith)
    ∙ ap parsed none_before

-- ListSize of a content is the number of bytes of the list's header and the content together, for
-- each content of less than 2^64 - 9 bytes, where the sum does not wrap around.
pub list_size-list_head :
    (content : List ℕ)
    → length content < 2 ^ 64 - 9
    → list_size (length content) ≡ length (list_head (length content) ++ content)
unfolding list_size list_head
list_size-list_head content h =
    let small : length content < 2 ^ 64 = omega arith in
    omega (
      arith,
      length-append (list_head (length content)) content,
      length-put_head 0xC0 0xF7 (length content) small,
      length-list_head (length content) small,
    )
