-- ===== src/Rlp/Splits.antt =====
-- common/rlp: Split, SplitString, SplitList and CountValues read back what the encoder writes.
use uranus.Prelude.{
  ℕ, zero, suc, ◌+◌, ◌-◌, ◌^◌, ◌<◌, ◌≤◌, ◌≡◌, refl, List, [], ◌∷◌, ◌++◌, length, length-append,
  drop, ltb, leb, ◌==◌, get_or, arith, Bool, inl, inr, Bool-cases, true, false, ◌&&◌,
}
use mathlib.Core.List.{append_assoc}
use uranus.Rlp.Encode.{encode_string, encode_string_header, list_head}
use uranus.Rlp.Raw.{
  parsed, failed, Kind, byte, string, list, read_kind, split, split_string, split_list, is_list,
  read_tag, expected_list, expected_string, within,
}
use uranus.Rlp.Sizes.{take-append, drop-append, get_or-append}
use uranus.Rlp.Headers.{read_kind-list_head, read_kind-encode_string_header, IsSingle}

drop-nil {ℓ} : {A : Type ℓ} (n : ℕ) → drop {A = A} n [] ≡ []
drop-nil zero = refl
drop-nil (suc n) = refl

pub drop-add {ℓ} : {A : Type ℓ} (a b : ℕ) (xs : List A) → drop (a + b) xs ≡ drop b (drop a xs)
drop-add zero b xs = let none_first : 0 + b ≡ b = omega arith in rw none_first refl
drop-add (suc a) b [] =
    let first : suc a + b ≡ suc (a + b) = omega arith in rw (first, drop-nil b) refl
drop-add (suc a) b (x ∷ xs) =
    let first : suc a + b ≡ suc (a + b) = omega arith in rw first (drop-add a b xs)

-- A header and its content are taken apart where the header is read.
split-read :
    (k : Kind) (head content rest : List ℕ)
    → read_kind (head ++ (content ++ rest)) ≡ parsed (k, length head, length content)
    → split (head ++ (content ++ rest)) ≡ parsed (k, content, rest)
unfolding split
split-read k head content rest e =
    rw
      (
        e,
        drop-add (length head) (length content) (head ++ (content ++ rest)),
        drop-append head (content ++ rest),
        take-append content rest,
        drop-append content rest,
      )
      refl

-- SplitList of a list's header, a content of that many bytes and further bytes returns the
-- content and the further bytes, for each content whose size fits 64 bits, and SplitString of
-- the same is refused with expected_string.
pub split_list-list_head :
    (content rest : List ℕ)
    → length content < 2 ^ 64
    → (split_list (list_head (length content) ++ (content ++ rest)) ≡ parsed (content, rest))
      × (split_string (list_head (length content) ++ (content ++ rest)) ≡ failed expected_string)
unfolding split_list split_string
split_list-list_head content rest h =
    let fits : length content ≤ length (content ++ rest) =
      omega (arith, length-append content rest) in
    let read = read_kind-list_head (length content) (content ++ rest) h fits in
    let taken = split-read list (list_head (length content)) content rest read in
    (rw taken refl, rw taken refl)

-- A byte below 128 is a string that has no header.
abbrev pub is_single : List ℕ → Bool
is_single b = (length b == 1) && leb (get_or b 0 0) 0x7F

encode_string-headed :
    (b : List ℕ) → is_single b ≡ false → encode_string b ≡ encode_string_header (length b) ++ b
unfolding encode_string
encode_string-headed b e = rw e refl

encode_string-single : (x : ℕ) → x < 128 → encode_string (x ∷ []) ≡ x ∷ []
unfolding encode_string
encode_string-single x h = let small : leb x 0x7F ≡ true = ground arith in rw small refl

-- What `read_kind` tells of an encoded string: a kind that is no list, and sizes that add up to
-- the encoding and say where the string lies in it.
pub record IsRead (b rest : List ℕ) : Type 0 where
  pub kind : Kind
  pub tagsize : ℕ
  pub no_list : is_list kind ≡ false
  pub read : read_kind (encode_string b ++ rest) ≡ parsed (kind, tagsize, length b)
  pub sizes : length (encode_string b) ≡ tagsize + length b
  pub content : drop tagsize (encode_string b ++ rest) ≡ b ++ rest
  pub some_byte : 0 < tagsize + length b

read_kind-byte : (b : ℕ) (rest : List ℕ) → b < 128 → read_kind (b ∷ rest) ≡ parsed (byte, 0, 1)
unfolding read_kind read_tag within
read_kind-byte b rest h =
    let small : ltb b 0x80 ≡ true = ground arith in
    let fits : ltb (suc (length rest) - 0) 1 ≡ false = ground arith in rw (small, fits) refl

single-IsRead : (x : ℕ) (rest : List ℕ) → x < 128 → IsRead (x ∷ []) rest
single-IsRead x rest h = record {
  kind = byte;
  tagsize = 0;
  no_list = refl;
  read = rw (encode_string-single x h) (read_kind-byte x rest h);
  sizes = rw (encode_string-single x h) (omega arith);
  content = rw (encode_string-single x h) refl;
  some_byte = omega arith;
}

length-encode_string_header : (size : ℕ) → 0 < length (encode_string_header size)
unfolding encode_string_header
length-encode_string_header size = elim (Bool-cases (ltb size 56)) [
  | inl a ↦ rw a (omega arith)
  | inr a ↦ rw a (omega arith)
]

headed-IsRead : (b rest : List ℕ) → length b < 2 ^ 64 → is_single b ≡ false → IsRead b rest
headed-IsRead b rest h e =
    let head = encode_string_header (length b) in
    let fits : length b ≤ length (b ++ rest) = omega (arith, length-append b rest) in
    let single : ¬ IsSingle (length b) (b ++ rest) = λ (one, low).
      let same : get_or (b ++ rest) 0 0 ≡ get_or b 0 0 = get_or-append b rest 0 (omega arith) in
      ground arith in
    let written : encode_string b ++ rest ≡ head ++ (b ++ rest) =
      rw (encode_string-headed b e) (append_assoc head b rest) in
    record {
      kind = string;
      tagsize = length head;
      no_list = refl;
      read = rw written (read_kind-encode_string_header (length b) (b ++ rest) h fits single);
      sizes = rw (encode_string-headed b e) (length-append head b);
      content = rw written (drop-append head (b ++ rest));
      some_byte = omega (arith, length-encode_string_header (length b));
    }

pub encode_string-IsRead : (b rest : List ℕ) → length b < 2 ^ 64 → IsRead b rest
encode_string-IsRead [] rest h = headed-IsRead [] rest h refl
encode_string-IsRead (x ∷ []) rest h = elim (Bool-cases (leb x 0x7F)) [
  | inl low ↦ single-IsRead x rest (ground arith)
  | inr high ↦ headed-IsRead (x ∷ []) rest h high
]
encode_string-IsRead (x ∷ y ∷ b) rest h = headed-IsRead (x ∷ y ∷ b) rest h (ground arith)

-- SplitString of an encoded string with further bytes after it returns the string and the
-- further bytes, for each string whose size fits 64 bits, and SplitList of the same is refused
-- with expected_list.
pub split_string-encode_string :
    (b rest : List ℕ)
    → length b < 2 ^ 64
    → (split_string (encode_string b ++ rest) ≡ parsed (b, rest))
      × (split_list (encode_string b ++ rest) ≡ failed expected_list)
unfolding split_string split_list split
split_string-encode_string b rest h =
    let r = encode_string-IsRead b rest h in
    let after : drop (r.tagsize + length b) (encode_string b ++ rest) ≡ rest =
      rw (drop-add r.tagsize (length b) (encode_string b ++ rest), r.content)
        (drop-append b rest) in
    (rw (r.read, r.no_list, r.content, take-append b rest, after) refl, rw (r.read, r.no_list) refl)
