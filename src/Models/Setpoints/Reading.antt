-- ===== src/Models/Setpoints/Reading.antt =====
-- Reads after writes of `SetpointValues` (src/tekmar_482/models.py).
use tekmar.Prelude.{
  ℕ, ◌≡◌, refl, sym, ap, ◌∙◌, Bool, true, false, ◌||◌, ◌&&◌, Bool-cases, Option, none, some, inl,
  inr, if◌then◌else◌, arith,
}
use tekmar.Prelude.Dict.{Map, insert, lookup-insert}
use tekmar.Models.Setback.{
  setback_value, ThaSetback, current_setback, same_setback, same_setback_iff, setback_key,
}
use tekmar.Models.Setpoints.{
  SetpointValues, observed_for, get_value, is_setback, current_for, current, get_setpoint,
  store_observed, with_value,
}

pub get_value-insert :
    (setback other : ThaSetback) (value : Option ℕ) (values : Map ThaSetback (Option ℕ))
    → get_value other (insert setback value values)
      ≡ (if same_setback setback other then value else get_value other values)
unfolding get_value
get_value-insert setback other value values =
    ground (arith, lookup-insert setback other value values)

pub same_self : (s : ThaSetback) → same_setback s s ≡ true
same_self s = (same_setback_iff s s).1 refl

-- `current` after a write to CURRENT: the observed setback has the value too.
current_for-stored :
    (active a : Option ThaSetback) (value : Option ℕ) (values : Map ThaSetback (Option ℕ))
    → current_for active (record {
      values = store_observed (observed_for active) value (insert current_setback value values);
      active_setback = a;
      current_observed_setback = observed_for active;
    })
      ≡ value
unfolding current_for observed_for store_observed
current_for-stored none a value values = ground (
  arith,
  get_value-insert current_setback current_setback value values,
  same_self current_setback,
)
current_for-stored (some active) a value values =
    let stored = insert current_setback value values in
    ground (
      arith,
      same_self current_setback,
      same_self active,
      get_value-insert current_setback current_setback value values,
      get_value-insert active active value stored,
      get_value-insert active current_setback value stored,
    )

with_value-other :
    (s : SetpointValues) (setback : ThaSetback) (value : Option ℕ)
    → same_setback setback current_setback ≡ false
    → with_value s setback value ≡ record s { values = insert setback value s.values }
unfolding with_value
with_value-other s setback value e = ground (arith, e)

get_setpoint-other :
    (s : SetpointValues) (setback : ThaSetback)
    → same_setback setback current_setback ≡ false
    → get_setpoint s setback ≡ get_value setback s.values
unfolding get_setpoint
get_setpoint-other s setback e = ground (arith, e)

get_setpoint_current :
    (s : SetpointValues) (value : Option ℕ)
    → get_setpoint (with_value s current_setback value) current_setback ≡ value
unfolding get_setpoint with_value current same_setback setback_value
get_setpoint_current s value = current_for-stored s.active_setback s.active_setback value s.values

-- A read of a setback after a write to it gives the value, None included. For CURRENT this is so
-- whichever setback is active.
pub get_setpoint-with_value :
    (s : SetpointValues) (setback : ThaSetback) (value : Option ℕ)
    → get_setpoint (with_value s setback value) setback ≡ value
get_setpoint-with_value s setback value = elim (Bool-cases (same_setback setback current_setback)) [
  | inl e ↦
      ap (λ x. get_setpoint (with_value s x value) x)
        ((same_setback_iff setback current_setback).0 e)
      ∙ get_setpoint_current s value
  | inr e ↦
      get_setpoint-other (with_value s setback value) setback e
      ∙ ap (λ t. get_value setback t.values) (with_value-other s setback value e)
      ∙ get_value-insert setback setback value s.values
      ∙ ap (λ b. if b then value else get_value setback s.values) (same_self setback)
]

-- The active setback is this one.
is_active : Option ThaSetback → ThaSetback → Bool
is_active none other = false
is_active (some active) other = same_setback active other

-- The setbacks that a write gives the value: the one written, and for CURRENT the active one too.
unfoldable pub is_written : SetpointValues → ThaSetback → ThaSetback → Bool
unfolding is_active
is_written s setback other =
    same_setback setback other
    || (same_setback setback current_setback && is_active s.active_setback other)

-- Where the active setback is seen, for a setback other than CURRENT.
observed_for-active :
    (active : Option ThaSetback) (other : ThaSetback)
    → same_setback other current_setback ≡ false
    → is_setback (observed_for active) other ≡ is_active active other
unfolding observed_for is_setback is_active
observed_for-active none other h = refl
observed_for-active (some active) other h = elim (Bool-cases (same_setback active other)) [
  | inl e ↦
      ground (arith, ap (λ x. same_setback x current_setback) ((same_setback_iff active other).0 e))
  | inr e ↦ ground (arith, e)
]

get_value-with_value :
    (s : SetpointValues) (setback other : ThaSetback) (value : Option ℕ)
    (observed : Option ThaSetback)
    → observed_for s.active_setback ≡ observed
    → get_value other (with_value s setback value).values ≡ (
        if same_setback setback other
          || (same_setback setback current_setback
              && is_setback (observed_for s.active_setback) other)
        then value
        else get_value other s.values)
unfolding with_value is_setback store_observed
get_value-with_value s setback other value none e =
    ground (arith, e, get_value-insert setback other value s.values)
get_value-with_value s setback other value (some observed) e = ground (
  arith,
  e,
  get_value-insert setback other value s.values,
  get_value-insert observed other value (insert setback value s.values),
)

-- A read of a setback other than CURRENT after a write: the value, if it is the setback written, or
-- the active one at a write to CURRENT; the value from before otherwise.
pub get_setpoint-with_value_other :
    (s : SetpointValues) (setback other : ThaSetback) (value : Option ℕ)
    → same_setback other current_setback ≡ false
    → get_setpoint (with_value s setback value) other
      ≡ (if is_written s setback other then value else get_setpoint s other)
unfolding is_written
get_setpoint-with_value_other s setback other value h =
    get_setpoint-other (with_value s setback value) other h
    ∙ get_value-with_value s setback other value (observed_for s.active_setback) refl
    ∙ ap
        (λ b.
          if same_setback setback other || (same_setback setback current_setback && b)
          then value
          else get_value other s.values)
        (observed_for-active s.active_setback other h)
    ∙ ap (λ v. if is_written s setback other then value else v) (sym (get_setpoint-other s other h))
