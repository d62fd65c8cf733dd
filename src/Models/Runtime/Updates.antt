-- ===== src/Models/Runtime/Updates.antt =====
-- Updates of a device's runtime and what is read afterwards (src/tekmar_482/models.py).
use tekmar.Prelude.{ℕ, ◌≡◌, ◌||◌, Option, some, if◌then◌else◌, arith}
use tekmar.Models.Setback.{ThaSetback, setback_from_value}
use tekmar.Models.Setpoints.{SetpointValues, with_value}
use tekmar.Models.Runtime.{
  DeviceValue, current_temperature, current_floor_temperature, active_demand, setback_state,
  mode_setting, relative_humidity, humidity_setpoint_min, humidity_setpoint_max, setpoint_targets,
  heat_setpoints, cool_setpoints, slab_setpoints, fan_percent, same_value_key, value_index,
  DeviceRuntime, with_scalar, with_setpoint,
}

-- What a runtime holds in a field: a scalar, or setpoints.
pub data Held : Type 0 where
  scalar : Option ℕ → Held
  setpoints : SetpointValues → Held

-- The field of each key.
unfoldable pub held : DeviceRuntime → DeviceValue → Held
held r current_temperature = scalar r.current_temperature_raw
held r current_floor_temperature = scalar r.current_floor_temperature_raw
held r active_demand = scalar r.active_demand_raw
held r setback_state = scalar r.setback_state_raw
held r mode_setting = scalar r.mode_setting_raw
held r relative_humidity = scalar r.relative_humidity_raw
held r humidity_setpoint_min = scalar r.humidity_setpoint_min_raw
held r humidity_setpoint_max = scalar r.humidity_setpoint_max_raw
held r setpoint_targets = setpoints r.setpoint_targets_raw
held r heat_setpoints = setpoints r.heat_setpoints_raw
held r cool_setpoints = setpoints r.cool_setpoints_raw
held r slab_setpoints = setpoints r.slab_setpoints_raw
held r fan_percent = setpoints r.fan_percent_raw

-- What a field holds after a scalar is stored.
abbrev pub expected_scalar : DeviceValue → Option ℕ → DeviceValue → Held → Held
expected_scalar value raw other (scalar old) =
    if same_value_key value other then scalar raw else scalar old
expected_scalar value raw other (setpoints old) =
    if same_value_key value setback_state
    then setpoints (record old { active_setback = setback_from_value raw })
    else setpoints old

-- After a scalar is stored, its field holds the new value and its key is available; the setback of a
-- new setback state, or None for a value of no setback, becomes the active setback of all five
-- setpoint fields; every other field, the availability of the other keys and the device are as
-- before.
pub held-with_scalar :
    (r t : DeviceRuntime) (value other : DeviceValue) (raw : Option ℕ)
    → with_scalar r value raw ≡ some t
    → (held t other ≡ expected_scalar value raw other (held r other))
      × (t.available_values other ≡ (same_value_key value other || r.available_values other))
      × (t.info ≡ r.info)
unfolding with_scalar held same_value_key value_index
held-with_scalar r t value other raw e = (ground arith, ground arith, ground arith)

-- What a field holds after a setpoint is stored.
abbrev pub expected_setpoint : DeviceValue → ThaSetback → Option ℕ → DeviceValue → Held → Held
expected_setpoint value setback raw other (scalar old) = scalar old
expected_setpoint value setback raw other (setpoints old) =
    if same_value_key value other then setpoints (with_value old setback raw) else setpoints old

-- After a setpoint is stored, the values under its key are those of `with_value`, its key is
-- available, and all else is as before.
pub held-with_setpoint :
    (r t : DeviceRuntime) (value other : DeviceValue) (setback : ThaSetback) (raw : Option ℕ)
    → with_setpoint r value setback raw ≡ some t
    → (held t other ≡ expected_setpoint value setback raw other (held r other))
      × (t.available_values other ≡ (same_value_key value other || r.available_values other))
      × (t.info ≡ r.info)
unfolding with_setpoint held same_value_key value_index
held-with_setpoint r t value other setback raw e = (ground arith, ground arith, ground arith)
