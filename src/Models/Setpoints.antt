-- ===== src/Models/Setpoints.antt =====
-- `SetpointValues` of src/tekmar_482/models.py: values by setback, with the one in force.
pub mod Reading
pub mod Raw
use tekmar.Prelude.{ℕ, Bool, true, false, Option, none, some, List, [], ◌∷◌, if◌then◌else◌}
use tekmar.Prelude.Dict.{Map, lookup, insert}
use tekmar.Models.Setback.{ThaSetback, current_setback, same_setback, setback_key}

-- A value of the mapping may be None, which is not a missing key.
pub record SetpointValues : Type 0 where
  pub values : Map ThaSetback (Option ℕ)
  pub active_setback : Option ThaSetback
  pub current_observed_setback : Option ThaSetback

-- `SetpointValues()`.
abbrev pub no_values : SetpointValues
no_values = record { values = []; active_setback = none; current_observed_setback = none }

-- `_current_observed_setback`.
unfoldable pub observed_for : Option ThaSetback → Option ThaSetback
unfolding same_setback
observed_for none = none
observed_for (some active) = if same_setback active current_setback then none else some active

-- `dict.get(key)` where a value may be None too.
unfoldable pub get_value_in : Option (Option ℕ) → Option ℕ
get_value_in none = none
get_value_in (some value) = value

unfoldable pub get_value : ThaSetback → Map ThaSetback (Option ℕ) → Option ℕ
unfolding get_value_in
get_value setback values = get_value_in (lookup setback values)

-- `==` on `ThaSetback | None`, with a setback on the right.
unfoldable pub is_setback : Option ThaSetback → ThaSetback → Bool
unfolding same_setback
is_setback none setback = false
is_setback (some s) setback = same_setback s setback

-- The first value unless it is None.
value_or : Option ℕ → Option ℕ → Option ℕ
value_or none other = other
value_or (some v) other = some v

-- `current`, for an active setback that is not CURRENT; the two tests behind the first one read
-- the same key.
active_current : ThaSetback → SetpointValues → Option ℕ
unfolding is_setback get_value value_or
active_current active s =
    if is_setback s.current_observed_setback active
    then value_or (get_value active s.values) (get_value current_setback s.values)
    else get_value active s.values

current_for : Option ThaSetback → SetpointValues → Option ℕ
unfolding active_current get_value same_setback
current_for none s = get_value current_setback s.values
current_for (some active) s =
    if same_setback active current_setback
    then get_value current_setback s.values
    else active_current active s

-- The property `current`.
unfoldable pub current : SetpointValues → Option ℕ
unfolding current_for
current s = current_for s.active_setback s

unfoldable pub get_setpoint : SetpointValues → ThaSetback → Option ℕ
unfolding current get_value same_setback
get_setpoint s setback =
    if same_setback setback current_setback then current s else get_value setback s.values

store_observed :
    Option ThaSetback → Option ℕ → Map ThaSetback (Option ℕ) → Map ThaSetback (Option ℕ)
store_observed none value values = values
store_observed (some observed) value values = insert observed value values

unfoldable pub with_value : SetpointValues → ThaSetback → Option ℕ → SetpointValues
unfolding store_observed observed_for same_setback
with_value s setback value =
    let stored = insert setback value s.values in
    if same_setback setback current_setback
    then (let observed = observed_for s.active_setback in
        record s {
          values = store_observed observed value stored;
          current_observed_setback = observed;
        })
    else record s { values = stored }

abbrev pub with_active_setback : SetpointValues → Option ThaSetback → SetpointValues
with_active_setback s active = record s { active_setback = active }

-- `from_mapping`, with no observed setback given.
unfoldable pub has_key : Option (Option ℕ) → Bool
has_key none = false
has_key (some value) = true

unfoldable pub from_mapping : Map ThaSetback (Option ℕ) → Option ThaSetback → SetpointValues
unfolding has_key observed_for
from_mapping values active = record {
  values = values;
  active_setback = active;
  current_observed_setback =
      if has_key (lookup current_setback values) then observed_for active else none;
}
