-- ===== src/Models/Tests.antt =====
-- Runs of the models of src/tekmar_482/models.py at concrete inputs.
use tekmar.Prelude.{if◌then◌else◌, List, String, ◌≡◌, refl, false, ◌||◌, none, some, [], ◌∷◌}
use tekmar.Prelude.Dict.{text_key, lookup}
use tekmar.Prelude.Texts.{str_eq}
use tekmar.Models.Setback.{
  ThaSetback, all_setbacks, setback_value, setback_from_value, setback_from_value-setback_value,
  wake_4, unocc_4, occ_4, sleep_4, occ_2, unocc_2, away, current_setback, same_setback,
}
use tekmar.Models.Setpoints.{SetpointValues, no_values, get_value_in, get_setpoint, with_value}
use tekmar.Models.Setpoints.Reading.{
  get_setpoint-with_value, get_setpoint-with_value_other, is_written,
}
use tekmar.Models.Setpoints.Raw.{lower_name, member_name, raw_dict, as_dict, from_raw}
use tekmar.Models.Setpoints.Raw.Loop.{RaisesNames}
use tekmar.Models.Setpoints.Raw.RoundTrip.{from_raw-as_dict}
use tekmar.Models.Device.{DiscoveredDevice}
use tekmar.Models.Runtime.{
  heat_setpoints, setback_state, same_value_key, DeviceRuntime, add_value, with_scalar,
  with_setpoint,
}
use tekmar.Models.Runtime.Updates.{held, setpoints, held-with_scalar}

setback_from_value-setback_value_example :
    setback_from_value (some (setback_value away)) ≡ some away
setback_from_value-setback_value_example = setback_from_value-setback_value away

-- Away is active, and the values of two setbacks are known.
abbrev away_values : SetpointValues
away_values = record {
  values = (wake_4, some 70) ∷ (away, some 40) ∷ [];
  active_setback = some away;
  current_observed_setback = none;
}

get_setpoint-with_value_example :
    get_setpoint (with_value away_values current_setback none) current_setback ≡ none
get_setpoint-with_value_example = get_setpoint-with_value away_values current_setback none

away-differs : same_setback away current_setback ≡ false
unfolding same_setback
away-differs = refl

get_setpoint-with_value_other_example :
    get_setpoint (with_value away_values current_setback (some 45)) away ≡ some 45
unfolding is_written same_setback
get_setpoint-with_value_other_example =
    get_setpoint-with_value_other away_values current_setback away (some 45) away-differs

-- `str.upper` on the names that a member has, and on no other text.
upper_among : List ThaSetback → String → String
unfolding lower_name member_name
upper_among [] name = name
upper_among (s ∷ rest) name =
    let other = upper_among rest name in if str_eq (lower_name s) name then member_name s else other

upper_names : String → String
unfolding upper_among
upper_names = upper_among all_setbacks

upper_names-RaisesNames : RaisesNames upper_names
unfolding upper_names upper_among lower_name member_name
upper_names-RaisesNames wake_4 = refl
upper_names-RaisesNames unocc_4 = refl
upper_names-RaisesNames occ_4 = refl
upper_names-RaisesNames sleep_4 = refl
upper_names-RaisesNames occ_2 = refl
upper_names-RaisesNames unocc_2 = refl
upper_names-RaisesNames away = refl
upper_names-RaisesNames current_setback = refl

as_dict-away :
    as_dict away_values ≡ ("current", some 40) ∷ ("wake_4", some 70) ∷ ("away", some 40) ∷ []
unfolding as_dict lookup
as_dict-away = refl

abbrev away_again : SetpointValues
away_again = from_raw upper_names (raw_dict (as_dict away_values)) (some away)

from_raw-as_dict_example :
    (get_value_in (lookup "current" (as_dict away_values)) ≡ some 40)
    × (away_again.active_setback ≡ some away)
    × (get_setpoint away_again current_setback ≡ some 40)
unfolding get_setpoint lookup lower_name
from_raw-as_dict_example =
    from_raw-as_dict upper_names upper_names-RaisesNames away_values current_setback

abbrev thermostat_552 : DiscoveredDevice
thermostat_552 = record {
  address = 1102;
  type_code = some 105103;
  version = none;
  attributes = 1;
  setback_events = none;
}

abbrev runtime_552 : DeviceRuntime
runtime_552 = record {
  info = thermostat_552;
  available_values = λ v. false;
  current_temperature_raw = none;
  current_floor_temperature_raw = none;
  active_demand_raw = none;
  setback_state_raw = none;
  mode_setting_raw = none;
  relative_humidity_raw = none;
  humidity_setpoint_min_raw = none;
  humidity_setpoint_max_raw = none;
  setpoint_targets_raw = no_values;
  heat_setpoints_raw = away_values;
  cool_setpoints_raw = no_values;
  slab_setpoints_raw = no_values;
  fan_percent_raw = no_values;
}

-- Occ 2 is active.
abbrev occupied : SetpointValues → SetpointValues
occupied values = record values { active_setback = some occ_2 }

abbrev with_setback : DeviceRuntime
with_setback = record runtime_552 {
  available_values = add_value (λ v. false) setback_state;
  setback_state_raw = some 4;
  setpoint_targets_raw = occupied no_values;
  heat_setpoints_raw = occupied away_values;
  cool_setpoints_raw = occupied no_values;
  slab_setpoints_raw = occupied no_values;
  fan_percent_raw = occupied no_values;
}

with_scalar-setback : with_scalar runtime_552 setback_state (some 4) ≡ some with_setback
unfolding with_scalar setback_from_value
with_scalar-setback = refl

held-with_scalar_example :
    (held with_setback heat_setpoints ≡ setpoints (occupied away_values))
    × (with_setback.available_values heat_setpoints
        ≡ (same_value_key setback_state heat_setpoints || false))
    × (with_setback.info ≡ thermostat_552)
unfolding held same_value_key setback_from_value
held-with_scalar_example =
    held-with_scalar runtime_552 with_setback setback_state heat_setpoints (some 4)
      with_scalar-setback

abbrev with_heat : DeviceRuntime
with_heat = record runtime_552 {
  available_values = add_value (λ v. false) heat_setpoints;
  heat_setpoints_raw = with_value away_values wake_4 (some 71);
}

with_setpoint-heat : with_setpoint runtime_552 heat_setpoints wake_4 (some 71) ≡ some with_heat
unfolding with_setpoint
with_setpoint-heat = refl
