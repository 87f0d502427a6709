-- ===== src/Base/Maps.antt =====
-- Maps from addresses, with a write at one address.
use Prim.Native.Nat.{ℕ}
use mathlib.Core.Path.{◌≡◌}
use mathlib.Core.Logic.{◌≢◌}
use native.Mathlib.Omega.{arith}
use mvsync.Base.Tests.{◌==◌, if◌then◌else◌}

module _ {ℓ} {A : Type ℓ} where
  abbrev pub set_at : (ℕ → A) → ℕ → A → ℕ → A
  set_at f i v j = if i == j then v else f j

  pub set_at_self : (f : ℕ → A) (i : ℕ) (v : A) → set_at f i v i ≡ v
  set_at_self f i v = ground arith

  pub set_at-ne : (f : ℕ → A) (i j : ℕ) (v : A) → i ≢ j → set_at f i v j ≡ f j
  set_at-ne f i j v h = ground arith
