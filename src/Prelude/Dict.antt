-- ===== src/Prelude/Dict.antt =====
-- Python dicts: association lists in insertion order, in which a write to a present key keeps its
-- place. Keys are of any type with a test for equality.
use mathlib.Core.Path.{◌≡◌, refl}
use mathlib.Core.Logic.{◌↔◌}
use mathlib.Core.Bool.{Bool, true}
use mathlib.Core.Option.{Option, none, some}
use mathlib.Core.List.{List, [], ◌∷◌, ◌++◌}
use Prim.Native.String.{String}
use Prim.Native.Nat.{ℕ}
use native.Mathlib.Omega.{arith}
use text.Mathlib.Text.{◌==◌ as text_same}
use text.Mathlib.TextEquality.{eq_iff as text_same_iff}
use tekmar.Prelude.Tests.{if◌then◌else◌, ◌==◌, ==_iff}

-- What a key type offers.
pub record Key {ℓ} (K : Type ℓ) : Type ℓ where
  pub same : K → K → Bool
  pub same_iff : (k j : K) → (same k j ≡ true) ↔ (k ≡ j)

instance abbrev pub text_key : Key String
text_key = record { same = text_same; same_iff = text_same_iff }

instance abbrev pub number_key : Key ℕ
number_key = record { same = ◌==◌; same_iff = ==_iff }

abbrev pub Map {ℓ κ} : Type ℓ → Type κ → Type (ℓ ⊔ κ)
Map K V = List (K × V)

abbrev pub Dict {κ} : Type κ → Type κ
Dict V = Map String V

module _ {ℓ κ} {K : Type ℓ} {V : Type κ} ⦃key : Key K⦄ where
  unfoldable pub lookup : K → Map K V → Option V
  lookup wanted [] = none
  lookup wanted (entry ∷ others) =
      if key.same entry.0 wanted then some entry.1 else lookup wanted others

  unfoldable pub insert : K → V → Map K V → Map K V
  insert wanted new [] = (wanted, new) ∷ []
  insert wanted new (entry ∷ others) =
      if key.same entry.0 wanted then (entry.0, new) ∷ others else entry ∷ insert wanted new others

  -- A read after a write.
  pub lookup-insert :
      (wanted other : K) (new : V) (dict : Map K V)
      → lookup other (insert wanted new dict)
        ≡ (if key.same wanted other then some new else lookup other dict)
  unfolding lookup insert
  lookup-insert wanted other new [] = refl
  lookup-insert wanted other new (entry ∷ others) = ground (
    arith,
    lookup-insert wanted other new others,
    key.same_iff entry.0 wanted,
    key.same_iff entry.0 other,
    key.same_iff wanted other,
  )

  -- A write to an absent key goes to the end.
  pub insert-fresh :
      (wanted : K) (new : V) (dict : Map K V)
      → lookup wanted dict ≡ none
      → insert wanted new dict ≡ dict ++ ((wanted, new) ∷ [])
  unfolding lookup insert
  insert-fresh wanted new [] absent = refl
  insert-fresh wanted new (entry ∷ others) absent = ground (arith, insert-fresh wanted new others)
