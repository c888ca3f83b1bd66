-- ===== src/Consensus/Schedule.antt =====
-- consensus/dpos/dpos.go and epochcontext.go: the options, the epochs and the validator whose turn it
-- is. Times are not negative; the zero address is 0.
use uranus.Prelude.{
  ℕ, ◌+◌, ◌*◌, ◌/◌, ◌%◌, ◌≤◌, ◌<◌, ◌≡◌, ◌≢◌, refl, ap, ◌∙◌, true, false, not, Option, none, some,
  List, length, get_elem?, leb, ◌==◌, if◌then◌else◌, arith,
}
use native.Mathlib.Nat.{add_assoc}
use uranus.State.Object.{Address}
use uranus.Dpos.Context.{DposContext}
use uranus.Dpos.Validators.{get_validators, is_dpos}

pub record DposOption : Type 0 where
  pub block_interval : ℕ
  pub block_repeat : ℕ
  pub max_validator_size : ℕ
  pub min_start_quantity : ℕ
  pub delay_epcho : ℕ
  pub max_confirmed_num : ℕ

unfoldable pub consensus_size : DposOption → ℕ
consensus_size opt = opt.max_validator_size * 2 / 3 + 1

unfoldable pub epoch_interval : DposOption → ℕ
epoch_interval opt = opt.block_interval * opt.block_repeat * opt.max_validator_size

-- `Slot`
unfoldable pub slot : DposOption → ℕ → ℕ
slot opt now = (now + opt.block_interval / 10) / opt.block_interval * opt.block_interval

-- `lookupValidator`: none for an error, the zero address where it is nobody's turn.
unfoldable pub lookup_validator : DposOption → ℕ → DposContext → Option Address
unfolding epoch_interval is_dpos
lookup_validator opt now ctx =
    let offset = now % epoch_interval opt / (opt.block_interval * opt.block_repeat) in
    elim (get_validators ctx) [
      | none ↦ none
      | some validators ↦
          let size = length validators in
          if size == 0
          then none
          else if not (is_dpos ctx)
          then get_elem? validators (offset % size)
          else if leb size offset
          then some 0
          else get_elem? validators offset
    ]

window_mod : (m e r : ℕ) → r < m → (e * m + r) % m ≡ r
window_mod m e r h = grind arith

window_div : (w i d : ℕ) → d < w → (i * w + d) / w ≡ i
window_div w i d h = grind arith

window_lt : (w m i d : ℕ) → i < m → d < w → i * w + d < w * m
window_lt w m i d h k = grind arith

turn_found :
    (opt : DposOption) (ctx : DposContext) (validators : List Address) (now i : ℕ)
    → ctx.epoch ≡ some validators
    → (length validators == 0) ≡ false
    → (length validators == 1) ≡ false
    → now % epoch_interval opt / (opt.block_interval * opt.block_repeat) ≡ i
    → leb (length validators) i ≡ false
    → lookup_validator opt now ctx ≡ get_elem? validators i
unfolding lookup_validator is_dpos
turn_found opt ctx validators now i h many not_one offset there =
    let dpos : is_dpos ctx ≡ true = rw (is_dpos, h, not_one) refl in
    rw (lookup_validator, h, many, dpos, offset, there) refl

-- With more or fewer validators than one, and no more than the largest number, the turn of the
-- validator at an index is, in every epoch, the window of that index, of a block interval times
-- the repetitions each.
pub lookup_validator-turn :
    (opt : DposOption) (ctx : DposContext) (validators : List Address) (e i d : ℕ)
    → ctx.epoch ≡ some validators
    → length validators ≢ 1
    → length validators ≤ opt.max_validator_size
    → i < length validators
    → d < opt.block_interval * opt.block_repeat
    → lookup_validator opt
        (e * epoch_interval opt + i * (opt.block_interval * opt.block_repeat) + d)
        ctx
      ≡ get_elem? validators i
unfolding lookup_validator is_dpos epoch_interval
lookup_validator-turn opt ctx validators e i d h ne le lt ld =
    let w = opt.block_interval * opt.block_repeat in
    let m = w * opt.max_validator_size in
    let now : ℕ = e * epoch_interval opt + i * w + d in
    let inside : i * w + d < m = window_lt w opt.max_validator_size i d (omega arith) ld in
    let assoc : now ≡ e * m + (i * w + d) = add_assoc (e * m) (i * w) d in
    let offset : now % m / w ≡ i =
      ap (λ n. n % m / w) assoc
      ∙ ap (λ n. n / w) (window_mod m e (i * w + d) inside)
      ∙ window_div w i d ld in
    let many : (length validators == 0) ≡ false = ground arith in
    let not_one : (length validators == 1) ≡ false = ground arith in
    let there : leb (length validators) i ≡ false = ground arith in
    turn_found opt ctx validators now i h many not_one offset there
