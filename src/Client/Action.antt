-- ===== src/Client/Action.antt =====
-- Coroutines of src/tekmar_482/client.py as actions on the world that the session talks to: the
-- world afterwards, and a value or an exception.
use tekmar.Prelude.{Bool, true, false, Option, none, some, List, [], ◌∷◌}
use tekmar.Exceptions.{TekmarError, Result, ok, err}

-- `os_error` is OSError, and `value_error` an exception outside the package, such as ValueError or
-- TypeError. `ran_out` is no outcome of the code: the count of rounds given to a loop was too small.
pub data Reply {ℓ} (A : Type ℓ) : Type ℓ where
  returned : A → Reply A
  raised : TekmarError → Reply A
  value_error os_error ran_out : Reply A

abbrev pub Action {ℓ κ} : Type ℓ → Type κ → Type (ℓ ⊔ κ)
Action W A = W → W × Reply A

abbrev pub then_reply {ℓ κ μ} :
    {W : Type ℓ} {A : Type κ} {B : Type μ} → W × Reply A → (A → Action W B) → W × Reply B
then_reply (w, returned a) next = next a w
then_reply (w, raised e) next = (w, raised e)
then_reply (w, value_error) next = (w, value_error)
then_reply (w, os_error) next = (w, os_error)
then_reply (w, ran_out) next = (w, ran_out)

infixl 5 ◌>>=◌
abbrev pub ◌>>=◌ {ℓ κ μ} :
    {W : Type ℓ} {A : Type κ} {B : Type μ} → Action W A → (A → Action W B) → Action W B
(first >>= next) w = then_reply (first w) next

infixl 5 ◌>>◌
abbrev pub ◌>>◌ {ℓ κ μ} :
    {W : Type ℓ} {A : Type κ} {B : Type μ} → Action W A → Action W B → Action W B
(first >> next) w = then_reply (first w) (λ a. next)

abbrev pub give {ℓ κ} : {W : Type ℓ} {A : Type κ} → A → Action W A
give a w = (w, returned a)

abbrev pub reply_of {ℓ} : {A : Type ℓ} → Result A → Reply A
reply_of (ok a) = returned a
reply_of (err e) = raised e

abbrev pub lift_call {ℓ κ} : {W : Type ℓ} {A : Type κ} → (W → W × Result A) → Action W A
lift_call call w = ((call w).0, reply_of (call w).1)

abbrev pub lift_result {ℓ κ} : {W : Type ℓ} {A : Type κ} → Result A → Action W A
lift_result result w = (w, reply_of result)

-- `if condition: await …`.
abbrev pub when {ℓ κ} : {W : Type ℓ} {A : Type κ} → Bool → Action W A → Action W (Option A)
when true action w = then_reply (action w) (λ a. give (some a))
when false action w = (w, returned none)

-- An exception of the clean-up takes the place of the first outcome.
abbrev pub after_cleanup {ℓ κ μ} :
    {W : Type ℓ} {A : Type κ} {B : Type μ} → Reply A → W × Reply B → W × Reply A
after_cleanup first (w, returned b) = (w, first)
after_cleanup first (w, raised e) = (w, raised e)
after_cleanup first (w, value_error) = (w, value_error)
after_cleanup first (w, os_error) = (w, os_error)
after_cleanup first (w, ran_out) = (w, ran_out)

-- `try: … finally: …`.
abbrev pub finally {ℓ κ μ} :
    {W : Type ℓ} {A : Type κ} {B : Type μ} → Action W A → Action W B → Action W A
finally body cleanup w = after_cleanup (body w).1 (cleanup (body w).0)

-- A list comprehension with an `await`.
unfoldable pub for_each {ℓ κ μ} :
    {W : Type ℓ} {A : Type κ} {B : Type μ} → (A → Action W B) → List A → Action W (List B)
for_each action [] = give []
for_each action (a ∷ rest) = do b ← action a; bs ← for_each action rest; give (b ∷ bs)
