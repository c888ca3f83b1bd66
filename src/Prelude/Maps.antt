-- ===== src/Prelude/Maps.antt =====
-- Go maps as functions: a missing key is the value that the map's reader takes for absence.
use Prim.Native.Nat.{ℕ}
use mathlib.Core.Path.{◌≡◌, fun_ext}
use mathlib.Core.Logic.{◌≢◌}
use native.Mathlib.Omega.{arith}
use uranus.Prelude.Tests.{◌==◌, if◌then◌else◌}

module _ {ℓ} {V : Type ℓ} where
  -- `m[k] = v`
  abbrev pub update : (ℕ → V) → ℕ → V → ℕ → V
  update m k v j = if k == j then v else m j

  pub update_self : (m : ℕ → V) (k : ℕ) (v : V) → update m k v k ≡ v
  update_self m k v = ground arith

  pub update_ne : (m : ℕ → V) (k j : ℕ) (v : V) → k ≢ j → update m k v j ≡ m j
  update_ne m k j v h = ground arith

  -- Writing back what a key held undoes a write to it.
  pub update-update_restore :
      (m : ℕ → V) (k : ℕ) (v w : V) → m k ≡ w → update (update m k v) k w ≡ m
  update-update_restore m k v w h = fun_ext λ j. ground arith

  -- Writing what a key holds changes nothing.
  pub update_same : (m : ℕ → V) (k : ℕ) → update m k (m k) ≡ m
  update_same m k = fun_ext λ j. ground arith
