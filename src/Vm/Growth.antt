-- ===== src/Vm/Growth.antt =====
-- What the growth of the memory costs in all.
use Prim.Native.Nat.{max}
use uranus.Prelude.{
  ℕ, ◌+◌, ◌-◌, ◌*◌, ◌/◌, ◌%◌, ◌^◌, ◌<◌, ◌≤◌, ◌≡◌, some, length, replicate, ltb, if◌then◌else◌, ◌||◌,
  arith, length-append, length-replicate, Bool-cases, inl, inr, false, refl, ◌∙◌, ap,
}
use uranus.Exec.GasPool.{max_uint64}
use uranus.Vm.Memory.{
  Memory, to_word_size, resize, memory_gas_cost, expand, charge, use_gas, grown, stopped,
  out_of_gas,
}

-- The fee of a memory of `words` words, by the yellow paper.
abbrev pub fee_of : ℕ → ℕ
fee_of words = 3 * words + words * words / 512

-- A memory of `words` words, all paid for.
pub record IsPriced (words : ℕ) (mem : Memory) : Type 0 where
  pub whole : length mem.store ≡ words * 32
  pub bounded : words ≤ 0xffffffff
  pub paid : mem.last_gas_cost ≡ fee_of words

square_mono : (v w : ℕ) → v ≤ w → v * v ≤ w * w
square_mono v w h = grind arith

squared : 0xffffffff * 0xffffffff ≡ 18446744065119617025
squared = refl

square_bound : (w : ℕ) → w ≤ 0xffffffff → w * w < 2 ^ 64
square_bound w h = omega (arith, square_mono w 0xffffffff h, squared)

fee_bound : (w : ℕ) → w ≤ 0xffffffff → fee_of w < 2 ^ 63
fee_bound w h = omega (arith, square_bound w h)

fee_mono : (v w : ℕ) → v ≤ w → fee_of v ≤ fee_of w
fee_mono v w h = omega (arith, square_mono v w h)

-- The total of the code, which wraps nowhere.
total_fee : (w : ℕ) → w ≤ 0xffffffff → (w * 3 % 2 ^ 64 + w * w % 2 ^ 64 / 512) % 2 ^ 64 ≡ fee_of w
total_fee w h = omega (arith, square_bound w h)

words_of : (w : ℕ) → w ≤ 0xffffffff → to_word_size (w * 32) ≡ w
unfolding to_word_size
words_of w h = ground arith

to_word_size-small : (n : ℕ) → n ≤ 0x1fffffffe0 → to_word_size n ≡ (n + 31) / 32
unfolding to_word_size
to_word_size-small n h = ground arith

memory_gas_cost-larger :
    (mem : Memory) (words new : ℕ)
    → IsPriced words mem
    → words < new
    → new ≤ 0xffffffff
    → memory_gas_cost mem (new * 32)
      ≡ some (fee_of new - fee_of words, record mem { last_gas_cost = fee_of new })
unfolding memory_gas_cost
memory_gas_cost-larger mem words new h l bound =
    rw (memory_gas_cost, words_of new bound, total_fee new bound)
      (ground (arith, h.whole, h.paid, fee_mono words new (omega arith), fee_bound new bound))

memory_gas_cost-within :
    (mem : Memory) (words new : ℕ)
    → IsPriced words mem
    → new ≤ words
    → memory_gas_cost mem (new * 32) ≡ some (0, mem)
unfolding memory_gas_cost
memory_gas_cost-within mem words new h l =
    rw (words_of new (omega (arith, h.bounded))) (ground (arith, h.whole, h.bounded))

resized :
    (mem : Memory) (size : ℕ) → length mem.store ≤ size → length (resize size mem).store ≡ size
unfolding resize
resized mem size h = elim (Bool-cases (ltb (length mem.store) size)) [
  | inr n ↦ rw n (ground (h, n, arith))
  | inl e ↦ rw e (
      omega (
        arith,
        h,
        length-append mem.store (replicate (size - length mem.store) 0),
        length-replicate {A = ℕ} (size - length mem.store) 0,
      ))
]

fits :
    (n : ℕ) → n ≤ 0x1fffffffe0 → (ltb max_uint64 n || ltb max_uint64 ((n + 31) / 32 * 32)) ≡ false
fits n h = ground arith

abbrev resized_to : ℕ → Memory → Memory
resized_to words mem = if ltb 0 (words * 32) then resize (words * 32) mem else mem

-- What `Run` does once the fee is known.
expand-charge :
    (mem mem1 : Memory) (n fee gas : ℕ)
    → n ≤ 0x1fffffffe0
    → memory_gas_cost mem ((n + 31) / 32 * 32) ≡ some (fee, mem1)
    → expand n gas mem ≡ charge ((n + 31) / 32 * 32) gas fee mem1
unfolding expand
expand-charge mem mem1 n fee gas h e =
    rw (expand, to_word_size-small n h, fits n h, e, to_word_size-small n h) refl

charge-paid :
    (words gas fee : ℕ) (mem : Memory)
    → charge (words * 32) gas fee mem
      ≡ (if ltb gas fee then stopped out_of_gas else grown (gas - fee) (resized_to words mem))
unfolding charge use_gas
charge-paid words gas fee mem = elim (Bool-cases (ltb gas fee)) [
  | inl e ↦ rw (charge, use_gas, e) refl
  | inr e ↦ rw (charge, use_gas, e) refl
]

resize-within : (mem : Memory) (size : ℕ) → size ≤ length mem.store → resize size mem ≡ mem
unfolding resize
resize-within mem size h = ground arith

resized_to-within :
    (mem : Memory) (words : ℕ) → words * 32 ≤ length mem.store → resized_to words mem ≡ mem
resized_to-within mem words h = ground (arith, resize-within mem (words * 32) h)

last_gas_cost-resized_to :
    (mem : Memory) (words : ℕ) → (resized_to words mem).last_gas_cost ≡ mem.last_gas_cost
unfolding resize
last_gas_cost-resized_to mem words = ground arith

length-resized_to :
    (mem : Memory) (words : ℕ)
    → length mem.store < words * 32
    → length (resized_to words mem).store ≡ words * 32
length-resized_to mem words h = ground (arith, resized mem (words * 32) (omega (arith, h)))

-- The growth of a memory whose fees are paid to hold up to 0x1fffffffe0 bytes costs exactly the
-- difference of the quadratic fees of the two sizes in words: a contract with less gas stops with
-- ErrOutOfGas, and any other goes on with that much gas less and with a memory of the larger size,
-- whose fees are again paid; the memory never shrinks.
pub expand-fee :
    (mem : Memory) (words n gas : ℕ)
    → IsPriced words mem
    → n ≤ 0x1fffffffe0
    → (mem' : Memory) × IsPriced (max words ((n + 31) / 32)) mem'
      × (expand n gas mem ≡ (
          let fee = fee_of (max words ((n + 31) / 32)) - fee_of words in
          if ltb gas fee then stopped out_of_gas else grown (gas - fee) mem'))
expand-fee mem words n gas h bound =
    let new = (n + 31) / 32 in
    elim (Bool-cases (ltb words new)) [
      | inl larger ↦
          let same : max words new ≡ new = ground (larger, arith) in
          let paid : Memory = record mem { last_gas_cost = fee_of new } in
          let fee = fee_of new - fee_of words in
          (
            resized_to new paid,
            rw same (record {
              whole = length-resized_to paid new (ground (h.whole, larger, arith));
              bounded = omega (arith, bound);
              paid = last_gas_cost-resized_to paid new;
            }),
            rw same (
                expand-charge mem paid n fee gas bound (
                  memory_gas_cost-larger mem words new h (ground (larger, arith))
                    (omega (arith, bound)))
                ∙ charge-paid new gas fee paid),
          )
      | inr within ↦
          let same : max words new ≡ words = ground (within, arith) in
          let none_due : fee_of words - fee_of words ≡ 0 = omega arith in
          (
            mem,
            rw same h,
            rw (same, none_due)
                (expand-charge mem mem n 0 gas bound
                    (memory_gas_cost-within mem words new h (ground (within, arith)))
                  ∙ charge-paid new gas 0 mem
                  ∙ ap (λ m. if ltb gas 0 then stopped out_of_gas else grown (gas - 0) m)
                      (resized_to-within mem new (ground (within, h.whole, arith)))),
          )
    ]

abbrev wrapped_total : ℕ → ℕ
wrapped_total w = (w * 3 % 2 ^ 64 + w * w % 2 ^ 64 / 512) % 2 ^ 64
