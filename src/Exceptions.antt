-- ===== src/Exceptions.antt =====
-- src/tekmar_482/exceptions.py: the exceptions that the package raises, and results of code that
-- may raise one.
use tekmar.Prelude.{◌≡◌, refl}

-- The classes of exceptions.py, each with the class that it derives from.
pub data TekmarError : Type 0 where
  protocol_error transport_error connection_closed : TekmarError
  unknown_service unknown_method unknown_field : TekmarError

pub data Result {ℓ} (A : Type ℓ) : Type ℓ where
  ok : A → Result A
  err : TekmarError → Result A

-- An exception skips the rest of a block.
infixl 5 ◌>>=◌
abbrev pub ◌>>=◌ {ℓ κ} : {A : Type ℓ} {B : Type κ} → Result A → (A → Result B) → Result B
ok value >>= next = next value
err raised >>= next = err raised

module _ {ℓ κ} {A : Type ℓ} {B : Type κ} (next : A → Result B) where
  -- If a block returns, so did its first step.
  pub bind-eq-ok :
      {result : B} (first : Result A)
      → (first >>= next) ≡ ok result
      → (value : A) × (first ≡ ok value) × (next value ≡ ok result)
  bind-eq-ok (ok value) returned = (value, refl, returned)
  bind-eq-ok (err raised) returned = cc
