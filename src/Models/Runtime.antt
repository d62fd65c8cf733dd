-- ===== src/Models/Runtime.antt =====
-- Runtime values in src/tekmar_482/models.py: `DeviceRuntime` and its updates, and the snapshots.
-- The subclasses of `DeviceRuntime` add views only, so one record stands for all of them.
pub mod Updates
use tekmar.Prelude.{
  ℕ, Bool, true, false, ◌||◌, Option, none, some, List, [], ◌∷◌, ◌==◌, if◌then◌else◌,
}
use tekmar.Prelude.Dict.{number_key, Map, insert}
use tekmar.Models.Setback.{ThaSetback, setback_from_value}
use tekmar.Models.Setpoints.{SetpointValues, with_value, with_active_setback}
use tekmar.Models.Device.{DiscoveredDevice}

pub data DeviceValue : Type 0 where
  current_temperature current_floor_temperature active_demand setback_state : DeviceValue
  mode_setting relative_humidity humidity_setpoint_min humidity_setpoint_max : DeviceValue
  setpoint_targets heat_setpoints cool_setpoints slab_setpoints fan_percent : DeviceValue

-- The place of a member in its class, to compare members.
unfoldable pub value_index : DeviceValue → ℕ
value_index current_temperature = 0
value_index current_floor_temperature = 1
value_index active_demand = 2
value_index setback_state = 3
value_index mode_setting = 4
value_index relative_humidity = 5
value_index humidity_setpoint_min = 6
value_index humidity_setpoint_max = 7
value_index setpoint_targets = 8
value_index heat_setpoints = 9
value_index cool_setpoints = 10
value_index slab_setpoints = 11
value_index fan_percent = 12

-- `is` of two members.
unfoldable pub same_value_key : DeviceValue → DeviceValue → Bool
unfolding value_index
same_value_key v w = value_index v == value_index w

-- A frozenset is its test of membership.
pub record DeviceRuntime : Type 0 where
  pub info : DiscoveredDevice
  pub available_values : DeviceValue → Bool
  pub current_temperature_raw : Option ℕ
  pub current_floor_temperature_raw : Option ℕ
  pub active_demand_raw : Option ℕ
  pub setback_state_raw : Option ℕ
  pub mode_setting_raw : Option ℕ
  pub relative_humidity_raw : Option ℕ
  pub humidity_setpoint_min_raw : Option ℕ
  pub humidity_setpoint_max_raw : Option ℕ
  pub setpoint_targets_raw : SetpointValues
  pub heat_setpoints_raw : SetpointValues
  pub cool_setpoints_raw : SetpointValues
  pub slab_setpoints_raw : SetpointValues
  pub fan_percent_raw : SetpointValues

-- `self.available_values | {value}`.
unfoldable pub add_value : (DeviceValue → Bool) → DeviceValue → DeviceValue → Bool
unfolding same_value_key
add_value available value other = same_value_key value other || available other

-- `with_active_setback` of the runtime.
unfoldable pub runtime_with_active : DeviceRuntime → Option ThaSetback → DeviceRuntime
runtime_with_active r active = record r {
  setpoint_targets_raw = with_active_setback r.setpoint_targets_raw active;
  heat_setpoints_raw = with_active_setback r.heat_setpoints_raw active;
  cool_setpoints_raw = with_active_setback r.cool_setpoints_raw active;
  slab_setpoints_raw = with_active_setback r.slab_setpoints_raw active;
  fan_percent_raw = with_active_setback r.fan_percent_raw active;
}

-- The branches of `with_scalar`; the last one raises TypeError, which is `none`.
scalar_stored : DeviceRuntime → DeviceValue → Option ℕ → Option DeviceRuntime
unfolding runtime_with_active setback_from_value
scalar_stored r setback_state raw =
    some (runtime_with_active (record r { setback_state_raw = raw }) (setback_from_value raw))
scalar_stored r current_temperature raw = some (record r { current_temperature_raw = raw })
scalar_stored r current_floor_temperature raw =
    some (record r { current_floor_temperature_raw = raw })
scalar_stored r active_demand raw = some (record r { active_demand_raw = raw })
scalar_stored r mode_setting raw = some (record r { mode_setting_raw = raw })
scalar_stored r relative_humidity raw = some (record r { relative_humidity_raw = raw })
scalar_stored r humidity_setpoint_min raw = some (record r { humidity_setpoint_min_raw = raw })
scalar_stored r humidity_setpoint_max raw = some (record r { humidity_setpoint_max_raw = raw })
scalar_stored r setpoint_targets raw = none
scalar_stored r heat_setpoints raw = none
scalar_stored r cool_setpoints raw = none
scalar_stored r slab_setpoints raw = none
scalar_stored r fan_percent raw = none

unfoldable pub with_scalar : DeviceRuntime → DeviceValue → Option ℕ → Option DeviceRuntime
unfolding scalar_stored add_value
with_scalar r value raw =
    scalar_stored (record r { available_values = add_value r.available_values value }) value raw

-- The branches of `with_setpoint`.
setpoint_stored : DeviceRuntime → DeviceValue → ThaSetback → Option ℕ → Option DeviceRuntime
unfolding with_value
setpoint_stored r setpoint_targets setback raw =
    some (record r { setpoint_targets_raw = with_value r.setpoint_targets_raw setback raw })
setpoint_stored r heat_setpoints setback raw =
    some (record r { heat_setpoints_raw = with_value r.heat_setpoints_raw setback raw })
setpoint_stored r cool_setpoints setback raw =
    some (record r { cool_setpoints_raw = with_value r.cool_setpoints_raw setback raw })
setpoint_stored r slab_setpoints setback raw =
    some (record r { slab_setpoints_raw = with_value r.slab_setpoints_raw setback raw })
setpoint_stored r fan_percent setback raw =
    some (record r { fan_percent_raw = with_value r.fan_percent_raw setback raw })
setpoint_stored r _ setback raw = none

unfoldable pub with_setpoint :
    DeviceRuntime → DeviceValue → ThaSetback → Option ℕ → Option DeviceRuntime
unfolding setpoint_stored add_value
with_setpoint r value setback raw =
    setpoint_stored (record r { available_values = add_value r.available_values value }) value
      setback raw

pub record GatewayDateTime : Type 0 where
  pub year : ℕ
  pub month : ℕ
  pub day : ℕ
  pub weekday : ℕ
  pub hour : ℕ
  pub minute : ℕ

pub record GatewayInfo : Type 0 where
  pub firmware_revision : Option ℕ
  pub protocol_version : Option ℕ

pub record GatewaySnapshot : Type 0 where
  pub info : GatewayInfo
  pub outdoor_temp : Option ℕ
  pub network_error : Option ℕ
  pub date_time : Option GatewayDateTime
  pub reporting_enabled : Option Bool
  pub setback_enabled : Option Bool
  pub setpoint_groups : Option (Map ℕ (Option Bool))

-- `DeviceSnapshot`.
pub record DeviceSnapshot : Type 0 where
  pub runtime : DeviceRuntime

pub record AvailableInfo : Type 0 where
  pub gateway : GatewaySnapshot
  pub devices : List DeviceSnapshot

pub record DiscoveryResult : Type 0 where
  pub gateway : GatewayInfo
  pub devices : List DiscoveredDevice
