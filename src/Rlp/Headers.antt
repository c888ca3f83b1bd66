-- ===== src/Rlp/Headers.antt =====
-- common/rlp: the headers that an encoder writes are the ones that readKind reads.
use uranus.Prelude.{
  ℕ, suc, ◌+◌, ◌-◌, ◌%◌, ◌^◌, ◌<◌, ◌≤◌, ◌≡◌, refl, sym, List, ◌∷◌, ◌++◌, length, length-append,
  take, ltb, ◌==◌, get_or, arith, inl, inr, Bool-cases, true, false, ◌&&◌, ltb→lt,
}
use uranus.Rlp.Encode.{put_int, int_size, head_size, put_head, list_head, encode_string_header}
use uranus.Rlp.Raw.{parsed, Kind, string, list, big_endian, read_size, read_tag, read_kind, within}
use uranus.Rlp.Sizes.{
  Written, put_int-Written, bound, length-low_bytes, first_byte, big_endian-low_bytes,
  int_size_from-bound, take-append, get_or-append,
}

pub length-put_int : (i : ℕ) (w : Written i) → length (put_int i) ≡ suc w.above
length-put_int i w = rw w.bytes (length-low_bytes (suc w.above) i)

-- The size of a header is the number of bytes that puthead writes, for each size of 64 bits.
pub length-put_head :
    (small_tag large_tag size : ℕ)
    → size < 2 ^ 64
    → length (put_head small_tag large_tag size) ≡ head_size size
unfolding put_head head_size int_size
length-put_head small_tag large_tag size h =
    let w = put_int-Written size h in
    let len : length (put_int size) ≡ int_size size = omega (
      arith,
      length-put_int size w,
      int_size_from-bound 8 w.above 1 size w.above<8 w.least w.most,
    ) in
    elim (Bool-cases (ltb size 56)) [ inl a ↦ rw a refl | inr a ↦ rw a (omega (arith, len)) ]

pub read_size-put_int :
    (i : ℕ) (rest : List ℕ)
    → 56 ≤ i
    → i < 2 ^ 64
    → read_size (put_int i ++ rest) (length (put_int i)) ≡ parsed i
unfolding read_size
read_size-put_int i rest h k =
    let w = put_int-Written i k in
    let taken : take (length (put_int i)) (put_int i ++ rest) ≡ put_int i =
      take-append (put_int i) rest in
    let value : big_endian 0 (put_int i) ≡ i =
      rw w.bytes (big_endian-low_bytes (suc w.above) i w.most) in
    let enough : ltb (length (put_int i ++ rest)) (length (put_int i)) ≡ false =
      ground (arith, length-append (put_int i) rest) in
    let some_left : 0 < length (put_int i) = omega (arith, length-put_int i w) in
    let needed : bound w.above ≤ i = elim w.least [ inl z ↦ rw z (omega arith) | inr l ↦ l ] in
    let first : 0 < get_or (put_int i ++ rest) 0 0 =
      rw (get_or-append (put_int i) rest 0 some_left, w.bytes)
        (first_byte w.above i needed w.most) in
    let nonzero : (get_or (put_int i ++ rest) 0 0 == 0) ≡ false = ground arith in
    let large : ltb i 56 ≡ false = ground arith in rw (taken, value, enough, nonzero, large) refl

-- The tags are told apart by their first byte.
read_tag-small_list :
    (size : ℕ) (rest : List ℕ)
    → size < 56
    → read_tag ((0xC0 + size % 2 ^ 8) % 2 ^ 8) rest ≡ parsed (list, 1, size)
unfolding read_tag
read_tag-small_list size rest h =
    let tag : (0xC0 + size % 2 ^ 8) % 2 ^ 8 ≡ 0xC0 + size = omega arith in
    let a : ltb (0xC0 + size) 0x80 ≡ false = ground arith in
    let b : ltb (0xC0 + size) 0xB8 ≡ false = ground arith in
    let c : ltb (0xC0 + size) 0xC0 ≡ false = ground arith in
    let d : ltb (0xC0 + size) 0xF8 ≡ true = ground arith in
    let e : 0xC0 + size - 0xC0 ≡ size = omega arith in rw (tag, a, b, c, d, e) refl

read_tag-large_list :
    (n size : ℕ) (rest : List ℕ)
    → 0 < n
    → n ≤ 8
    → read_size rest n ≡ parsed size
    → read_tag ((0xF7 + n % 2 ^ 8) % 2 ^ 8) rest ≡ parsed (list, n + 1, size)
unfolding read_tag
read_tag-large_list n size rest h k r =
    let tag : (0xF7 + n % 2 ^ 8) % 2 ^ 8 ≡ 0xF7 + n = omega arith in
    let a : ltb (0xF7 + n) 0x80 ≡ false = ground arith in
    let b : ltb (0xF7 + n) 0xB8 ≡ false = ground arith in
    let c : ltb (0xF7 + n) 0xC0 ≡ false = ground arith in
    let d : ltb (0xF7 + n) 0xF8 ≡ false = ground arith in
    let e : 0xF7 + n - 0xF7 ≡ n = omega arith in rw (tag, a, b, c, d, e, r) refl

-- A string of one byte below 128 has no header.
abbrev pub IsSingle : ℕ → List ℕ → Type 0
IsSingle size rest = (size ≡ 1) × (get_or rest 0 0 < 128)

read_tag-small_string :
    (size : ℕ) (rest : List ℕ)
    → size < 56
    → ¬ IsSingle size rest
    → read_tag ((0x80 + size % 2 ^ 8) % 2 ^ 8) rest ≡ parsed (string, 1, size)
unfolding read_tag
read_tag-small_string size rest h k =
    let tag : (0x80 + size % 2 ^ 8) % 2 ^ 8 ≡ 0x80 + size = omega arith in
    let a : ltb (0x80 + size) 0x80 ≡ false = ground arith in
    let b : ltb (0x80 + size) 0xB8 ≡ true = ground arith in
    let e : 0x80 + size - 0x80 ≡ size = omega arith in
    let c : ((size == 1) && (ltb 0 (length rest) && ltb (get_or rest 0 0) 128)) ≡ false =
      ground arith in
    rw (tag, a, b, e, c) refl

read_tag-large_string :
    (n size : ℕ) (rest : List ℕ)
    → 0 < n
    → n ≤ 8
    → read_size rest n ≡ parsed size
    → read_tag ((0xB7 + n % 2 ^ 8) % 2 ^ 8) rest ≡ parsed (string, n + 1, size)
unfolding read_tag
read_tag-large_string n size rest h k r =
    let tag : (0xB7 + n % 2 ^ 8) % 2 ^ 8 ≡ 0xB7 + n = omega arith in
    let a : ltb (0xB7 + n) 0x80 ≡ false = ground arith in
    let b : ltb (0xB7 + n) 0xB8 ≡ false = ground arith in
    let c : ltb (0xB7 + n) 0xC0 ≡ true = ground arith in
    let e : 0xB7 + n - 0xB7 ≡ n = omega arith in rw (tag, a, b, c, e, r) refl

-- What the tag tells is accepted where the input has that much left.
read_kind-tag :
    (b : ℕ) (rest : List ℕ) (k : Kind) (ts cs : ℕ)
    → read_tag b rest ≡ parsed (k, ts, cs)
    → ts + cs ≤ suc (length rest)
    → read_kind (b ∷ rest) ≡ parsed (k, ts, cs)
unfolding read_kind within
read_kind-tag b rest k ts cs e h =
    let fits : ltb (suc (length rest) - ts) cs ≡ false = ground arith in rw (e, fits) refl

read_kind-large :
    (b size : ℕ) (after : List ℕ) (k : Kind)
    → read_tag b (put_int size ++ after) ≡ parsed (k, length (put_int size) + 1, size)
    → size ≤ length after
    → read_kind (b ∷ put_int size ++ after) ≡ parsed (k, suc (length (put_int size)), size)
read_kind-large b size after k e h =
    let more : length (put_int size) + 1 ≡ suc (length (put_int size)) = omega arith in
    rw (sym more) (
      read_kind-tag b (put_int size ++ after) k (length (put_int size) + 1) size e
        (omega (arith, length-append (put_int size) after)))

-- The number of bytes of a size, between 1 and 8.
put_int-bounds : (i : ℕ) → i < 2 ^ 64 → (0 < length (put_int i)) × (length (put_int i) ≤ 8)
put_int-bounds i h =
    let w = put_int-Written i h in
    (omega (arith, length-put_int i w), omega (arith, length-put_int i w, w.above<8))

-- A header takes at most nine bytes.
pub length-list_head : (size : ℕ) → size < 2 ^ 64 → length (list_head size) ≤ 9
unfolding list_head put_head
length-list_head size h = elim (Bool-cases (ltb size 56)) [
  | inl a ↦ rw a (omega arith)
  | inr a ↦ rw a (omega (arith, (put_int-bounds size h).1))
]

pub read_kind-list_head :
    (size : ℕ) (after : List ℕ)
    → size < 2 ^ 64
    → size ≤ length after
    → read_kind (list_head size ++ after) ≡ parsed (list, length (list_head size), size)
unfolding list_head put_head
read_kind-list_head size after h k = elim (Bool-cases (ltb size 56)) [
  | inl a ↦
      let tag = read_tag-small_list size after (ltb→lt size 56 a) in
      rw a (read_kind-tag ((0xC0 + size % 2 ^ 8) % 2 ^ 8) after list 1 size tag (omega arith))
  | inr a ↦
      let read = read_size-put_int size after (ground arith) h in
      let n = length (put_int size) in
      let tag =
        read_tag-large_list n size (put_int size ++ after) (put_int-bounds size h).0
          (put_int-bounds size h).1 read in
      rw a (read_kind-large ((0xF7 + n % 2 ^ 8) % 2 ^ 8) size after list tag k)
]

pub read_kind-encode_string_header :
    (size : ℕ) (after : List ℕ)
    → size < 2 ^ 64
    → size ≤ length after
    → ¬ IsSingle size after
    → read_kind (encode_string_header size ++ after)
      ≡ parsed (string, length (encode_string_header size), size)
unfolding encode_string_header
read_kind-encode_string_header size after h k single = elim (Bool-cases (ltb size 56)) [
  | inl a ↦
      let tag = read_tag-small_string size after (ltb→lt size 56 a) single in
      rw a (read_kind-tag ((0x80 + size % 2 ^ 8) % 2 ^ 8) after string 1 size tag (omega arith))
  | inr a ↦
      let read = read_size-put_int size after (ground arith) h in
      let n = length (put_int size) in
      let tag =
        read_tag-large_string n size (put_int size ++ after) (put_int-bounds size h).0
          (put_int-bounds size h).1 read in
      rw a (read_kind-large ((0xB7 + n % 2 ^ 8) % 2 ^ 8) size after string tag k)
]
