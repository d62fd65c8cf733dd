-- ===== src/Prelude/Store.antt =====
-- Objects that are shared by reference: a store from identities to values.
use Prim.Native.Nat.{ℕ}
use mathlib.Core.Path.{◌≡◌}
use mathlib.Core.Logic.{◌≢◌}
use native.Mathlib.Omega.{arith}
use tekmar.Prelude.Tests.{if◌then◌else◌, ◌==◌}

module _ {ℓ} {A : Type ℓ} where
  unfoldable pub assign : (ℕ → A) → ℕ → A → ℕ → A
  assign store id value other = if id == other then value else store other

  pub assign_self : (store : ℕ → A) (id : ℕ) (value : A) → assign store id value id ≡ value
  unfolding assign
  assign_self store id value = ground arith

  pub assign_ne :
      (store : ℕ → A) (id : ℕ) (value : A) (other : ℕ)
      → id ≢ other
      → assign store id value other ≡ store other
  unfolding assign
  assign_ne store id value other ne = ground arith
