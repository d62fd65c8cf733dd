-- ===== src/Models/Equality.antt =====
-- Equality of the runtime data: the dataclasses of src/tekmar_482/models.py compare their fields, and
-- dicts compare without regard to the order of their entries.
use tekmar.Prelude.{
  ℕ, Bool, true, false, ◌&&◌, not, Option, none, some, List, [], ◌∷◌, ◌==◌, length,
}
use tekmar.Prelude.Dict.{Key, number_key, Map, lookup}
use tekmar.Models.Setback.{same_setback, setback_key}
use tekmar.Models.Setpoints.{SetpointValues}
use tekmar.Models.Device.{DiscoveredDevice}
use tekmar.Models.Runtime.{
  DeviceValue, DeviceRuntime, GatewayDateTime, GatewaySnapshot, AvailableInfo,
}

same_bool : Bool → Bool → Bool
same_bool true b = b
same_bool false b = not b

module _ {A : Type 0} (same : A → A → Bool) where
  same_option : Option A → Option A → Bool
  same_option none none = true
  same_option none (some b) = false
  same_option (some a) none = false
  same_option (some a) (some b) = same a b

  same_list : List A → List A → Bool
  same_list [] [] = true
  same_list [] (b ∷ bs) = false
  same_list (a ∷ as_) [] = false
  same_list (a ∷ as_) (b ∷ bs) = same a b && same_list as_ bs

  found_same : A → Option A → Bool
  found_same a none = false
  found_same a (some b) = same a b

abbrev same_number : Option ℕ → Option ℕ → Bool
same_number = same_option (λ m n. m == n)

abbrev same_flag : Option Bool → Option Bool → Bool
same_flag = same_option same_bool

module _ {K : Type 0} ⦃key : Key K⦄ {V : Type 0} (same : V → V → Bool) where
  has_entries : Map K V → Map K V → Bool
  unfolding lookup found_same
  has_entries [] other = true
  has_entries ((k, v) ∷ rest) other = found_same same v (lookup k other) && has_entries rest other

  same_map : Map K V → Map K V → Bool
  unfolding has_entries
  same_map m n = length m == length n && has_entries m n

same_setpoints : SetpointValues → SetpointValues → Bool
unfolding same_map same_option same_setback
same_setpoints s t =
    same_map same_number s.values t.values
    && same_option same_setback s.active_setback t.active_setback
    && same_option same_setback s.current_observed_setback t.current_observed_setback

same_device : DiscoveredDevice → DiscoveredDevice → Bool
unfolding same_option
same_device d e =
    d.address == e.address
    && same_number d.type_code e.type_code
    && same_number d.version e.version
    && d.attributes == e.attributes
    && same_number d.setback_events e.setback_events

-- Two sets of values.
same_values : List DeviceValue → (DeviceValue → Bool) → (DeviceValue → Bool) → Bool
unfolding same_bool
same_values [] v w = true
same_values (value ∷ values) v w = same_bool (v value) (w value) && same_values values v w

abbrev all_values : List DeviceValue
all_values =
    DeviceValue.current_temperature ∷ DeviceValue.current_floor_temperature
    ∷ DeviceValue.active_demand ∷ DeviceValue.setback_state ∷ DeviceValue.mode_setting
    ∷ DeviceValue.relative_humidity ∷ DeviceValue.humidity_setpoint_min
    ∷ DeviceValue.humidity_setpoint_max ∷ DeviceValue.setpoint_targets ∷ DeviceValue.heat_setpoints
    ∷ DeviceValue.cool_setpoints ∷ DeviceValue.slab_setpoints ∷ DeviceValue.fan_percent ∷ []

same_runtime : DeviceRuntime → DeviceRuntime → Bool
unfolding same_device same_values same_setpoints
same_runtime r s =
    same_device r.info s.info
    && same_values all_values r.available_values s.available_values
    && same_number r.current_temperature_raw s.current_temperature_raw
    && same_number r.current_floor_temperature_raw s.current_floor_temperature_raw
    && same_number r.active_demand_raw s.active_demand_raw
    && same_number r.setback_state_raw s.setback_state_raw
    && same_number r.mode_setting_raw s.mode_setting_raw
    && same_number r.relative_humidity_raw s.relative_humidity_raw
    && same_number r.humidity_setpoint_min_raw s.humidity_setpoint_min_raw
    && same_number r.humidity_setpoint_max_raw s.humidity_setpoint_max_raw
    && same_setpoints r.setpoint_targets_raw s.setpoint_targets_raw
    && same_setpoints r.heat_setpoints_raw s.heat_setpoints_raw
    && same_setpoints r.cool_setpoints_raw s.cool_setpoints_raw
    && same_setpoints r.slab_setpoints_raw s.slab_setpoints_raw
    && same_setpoints r.fan_percent_raw s.fan_percent_raw

same_date_time : GatewayDateTime → GatewayDateTime → Bool
same_date_time d e =
    d.year == e.year
    && d.month == e.month
    && d.day == e.day
    && d.weekday == e.weekday
    && d.hour == e.hour
    && d.minute == e.minute

same_gateway : GatewaySnapshot → GatewaySnapshot → Bool
unfolding same_date_time same_map
same_gateway g h =
    same_number g.info.firmware_revision h.info.firmware_revision
    && same_number g.info.protocol_version h.info.protocol_version
    && same_number g.outdoor_temp h.outdoor_temp
    && same_number g.network_error h.network_error
    && same_option same_date_time g.date_time h.date_time
    && same_flag g.reporting_enabled h.reporting_enabled
    && same_flag g.setback_enabled h.setback_enabled
    && same_option (same_map same_flag) g.setpoint_groups h.setpoint_groups

-- `==` of two `AvailableInfo`.
unfoldable pub same_info : AvailableInfo → AvailableInfo → Bool
unfolding same_gateway same_runtime same_list
same_info a b =
    same_gateway a.gateway b.gateway
    && same_list (λ s t. same_runtime s.runtime t.runtime) a.devices b.devices
