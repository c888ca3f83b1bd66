-- ===== src/Prelude/Results.antt =====
-- Calls that return a value or panic.
use mathlib.Core.Path.{◌≡◌, refl}

-- Why a call panics.
pub data Panic : Type 0 where
  nil_pointer : Panic
  unknown_revision : Panic
  slice_bounds : Panic
  gas_overflow : Panic
  encode_failed : Panic

pub data Result {ℓ} (A : Type ℓ) : Type ℓ where
  ok : A → Result A
  panic : Panic → Result A

infixl 5 ◌>>=◌
abbrev pub ◌>>=◌ {ℓ κ} : {A : Type ℓ} {B : Type κ} → Result A → (A → Result B) → Result B
ok a >>= f = f a
panic e >>= f = panic e

pub bind_assoc {ℓ κ μ} :
    {A : Type ℓ} {B : Type κ} {C : Type μ} (m : Result A) (f : A → Result B) (g : B → Result C)
    → (m >>= f >>= g) ≡ (m >>= λ a. f a >>= g)
bind_assoc (ok a) f g = refl
bind_assoc (panic e) f g = refl

module _ {ℓ κ} {A : Type ℓ} {B : Type κ} (next : A → Result B) {result : B} where
  -- Where a chain has returned, so has its first step, and the next one from its value.
  pub >>=-returned :
      (r : Result A) → (r >>= next) ≡ ok result → (x : A) × (r ≡ ok x) × (next x ≡ ok result)
  >>=-returned (ok x) shown = (x, refl, shown)
  >>=-returned (panic why) shown = absurd (cc)
