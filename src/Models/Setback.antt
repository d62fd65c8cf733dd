-- ===== src/Models/Setback.antt =====
-- `ThaSetback` of src/tekmar_482/constants.py, and `setback_from_value` of
-- src/tekmar_482/models.py.
use tekmar.Prelude.{
  ℕ, ◌≡◌, refl, sym, ap, ◌∙◌, ◌↔◌, Bool, true, Option, none, some, List, [], ◌∷◌, ◌==◌, ==_iff,
  if◌then◌else◌,
}
use tekmar.Prelude.Dict.{Key}

pub data ThaSetback : Type 0 where
  wake_4 unocc_4 occ_4 sleep_4 occ_2 unocc_2 away current_setback : ThaSetback

unfoldable pub setback_value : ThaSetback → ℕ
setback_value wake_4 = 0x00
setback_value unocc_4 = 0x01
setback_value occ_4 = 0x02
setback_value sleep_4 = 0x03
setback_value occ_2 = 0x04
setback_value unocc_2 = 0x05
setback_value away = 0x06
setback_value current_setback = 0x07

-- The members in the order of the class.
abbrev pub all_setbacks : List ThaSetback
all_setbacks = wake_4 ∷ unocc_4 ∷ occ_4 ∷ sleep_4 ∷ occ_2 ∷ unocc_2 ∷ away ∷ current_setback ∷ []

find_setback : ℕ → List ThaSetback → Option ThaSetback
find_setback value [] = none
find_setback value (s ∷ rest) =
    let later = find_setback value rest in if setback_value s == value then some s else later

-- `ThaSetback(value)`, or None for None and for the values of no member.
unfoldable pub setback_from_value : Option ℕ → Option ThaSetback
unfolding find_setback setback_value
setback_from_value none = none
setback_from_value (some value) = find_setback value all_setbacks

-- Every member is found by its value.
pub setback_from_value-setback_value :
    (s : ThaSetback) → setback_from_value (some (setback_value s)) ≡ some s
unfolding setback_from_value setback_value
setback_from_value-setback_value wake_4 = refl
setback_from_value-setback_value unocc_4 = refl
setback_from_value-setback_value occ_4 = refl
setback_from_value-setback_value sleep_4 = refl
setback_from_value-setback_value occ_2 = refl
setback_from_value-setback_value unocc_2 = refl
setback_from_value-setback_value away = refl
setback_from_value-setback_value current_setback = refl

unfoldable pub same_setback : ThaSetback → ThaSetback → Bool
unfolding setback_value
same_setback s t = setback_value s == setback_value t

some_injective {ℓ} : {A : Type ℓ} {a b : A} → some a ≡ some b → a ≡ b
some_injective h = cc

pub same_setback_iff : (s t : ThaSetback) → (same_setback s t ≡ true) ↔ (s ≡ t)
unfolding same_setback
same_setback_iff s t = (
  (λ h. some_injective (
      sym (setback_from_value-setback_value s)
      ∙ ap (λ v. setback_from_value (some v)) ((==_iff (setback_value s) (setback_value t)).0 h)
      ∙ setback_from_value-setback_value t)),
  (λ e. (==_iff (setback_value s) (setback_value t)).1 (ap setback_value e)),
)

instance abbrev pub setback_key : Key ThaSetback
setback_key = record { same = same_setback; same_iff = same_setback_iff }
