-- ===== src/State.antt =====
-- src/tekmar_482/state.py: which messages change the runtime data, and how.
pub mod Apply
pub mod Holder
mod Tests
use tekmar.Prelude.{
  ℕ, String, Bool, true, false, ◌&&◌, ◌||◌, not, Option, none, some, List, [], ◌∷◌, ◌==◌, ltb,
  if◌then◌else◌,
}
use mathlib.Core.Option
use tekmar.Prelude.Dict.{number_key, Map, lookup, insert}
use tekmar.Exceptions.{Result, ok, err, protocol_error}
use tekmar.Trpc.Methods.{
  TrpcService, update, request, report, response_update, response_request, TrpcMethod,
}
use tekmar.Trpc.Lookup.{service_of_id, method_of_id}
use tekmar.Trpc.Message.{TrpcPacket, get}
use tekmar.Models.Setback.{ThaSetback, setback_from_value}
use tekmar.Models.Device.{
  DiscoveredDevice, supports_heat_setpoint, supports_cool_setpoint, supports_slab_setpoint,
  supports_fan_percent, supports_humidity, supports_setpoint_device, supports_mode_setting,
}
use tekmar.Models.Runtime.{
  DeviceValue, DeviceRuntime, with_scalar, with_setpoint, GatewayDateTime, GatewaySnapshot,
  DeviceSnapshot, AvailableInfo, DiscoveryResult,
}

-- `RUNTIME_SERVICES`.
abbrev pub is_runtime_service : Option TrpcService → Bool
is_runtime_service (some report) = true
is_runtime_service (some response_request) = true
is_runtime_service (some response_update) = true
is_runtime_service _ = false

abbrev pub is_known {ℓ} : {A : Type ℓ} → Option A → Bool
is_known none = false
is_known (some a) = true

unfoldable pub is_runtime_message : TrpcPacket → Bool
unfolding service_of_id method_of_id
is_runtime_message m =
    is_runtime_service (service_of_id m.service_id) && is_known (method_of_id m.method_id)

-- `GATEWAY_METHODS`.
unfoldable pub is_gateway_method : TrpcMethod → Bool
is_gateway_method TrpcMethod.date_time = true
is_gateway_method TrpcMethod.network_error = true
is_gateway_method TrpcMethod.outdoor_temp = true
is_gateway_method TrpcMethod.reporting_state = true
is_gateway_method TrpcMethod.setback_enable = true
is_gateway_method TrpcMethod.setpoint_group_enable = true
is_gateway_method _ = false

-- `SETPOINT_METHODS`.
unfoldable pub setpoint_method : TrpcMethod → Option (DeviceValue × String)
setpoint_method TrpcMethod.cool_setpoint = some (DeviceValue.cool_setpoints, "setpoint")
setpoint_method TrpcMethod.fan_percent = some (DeviceValue.fan_percent, "percent")
setpoint_method TrpcMethod.heat_setpoint = some (DeviceValue.heat_setpoints, "setpoint")
setpoint_method TrpcMethod.setpoint_device = some (DeviceValue.setpoint_targets, "temp")
setpoint_method TrpcMethod.slab_setpoint = some (DeviceValue.slab_setpoints, "setpoint")
setpoint_method _ = none

-- `SCALAR_METHODS`.
unfoldable pub scalar_method : TrpcMethod → Option (DeviceValue × String)
scalar_method TrpcMethod.active_demand = some (DeviceValue.active_demand, "demand")
scalar_method TrpcMethod.current_floor_temperature =
    some (DeviceValue.current_floor_temperature, "temp")
scalar_method TrpcMethod.current_temperature = some (DeviceValue.current_temperature, "temp")
scalar_method TrpcMethod.humidity_set_max = some (DeviceValue.humidity_setpoint_max, "percent")
scalar_method TrpcMethod.humidity_set_min = some (DeviceValue.humidity_setpoint_min, "percent")
scalar_method TrpcMethod.mode_setting = some (DeviceValue.mode_setting, "mode")
scalar_method TrpcMethod.relative_humidity = some (DeviceValue.relative_humidity, "percent")
scalar_method TrpcMethod.setback_state = some (DeviceValue.setback_state, "setback")
scalar_method _ = none

-- `DEVICE_VALUE_METHODS`.
unfoldable pub is_device_method : TrpcMethod → Bool
is_device_method TrpcMethod.active_demand = true
is_device_method TrpcMethod.cool_setpoint = true
is_device_method TrpcMethod.current_floor_temperature = true
is_device_method TrpcMethod.current_temperature = true
is_device_method TrpcMethod.fan_percent = true
is_device_method TrpcMethod.heat_setpoint = true
is_device_method TrpcMethod.humidity_set_max = true
is_device_method TrpcMethod.humidity_set_min = true
is_device_method TrpcMethod.mode_setting = true
is_device_method TrpcMethod.relative_humidity = true
is_device_method TrpcMethod.setback_state = true
is_device_method TrpcMethod.setpoint_device = true
is_device_method TrpcMethod.slab_setpoint = true
is_device_method _ = false

unfoldable pub device_supports_method : DiscoveredDevice → TrpcMethod → Bool
unfolding supports_heat_setpoint supports_cool_setpoint supports_slab_setpoint supports_fan_percent
    supports_humidity supports_setpoint_device supports_mode_setting
device_supports_method d TrpcMethod.heat_setpoint = supports_heat_setpoint d
device_supports_method d TrpcMethod.cool_setpoint = supports_cool_setpoint d
device_supports_method d TrpcMethod.slab_setpoint = supports_slab_setpoint d
device_supports_method d TrpcMethod.fan_percent = supports_fan_percent d
device_supports_method d TrpcMethod.relative_humidity = supports_humidity d
device_supports_method d TrpcMethod.humidity_set_min = supports_humidity d
device_supports_method d TrpcMethod.humidity_set_max = supports_humidity d
device_supports_method d TrpcMethod.setpoint_device = supports_setpoint_device d
device_supports_method d TrpcMethod.mode_setting = supports_mode_setting d
device_supports_method d TrpcMethod.active_demand = true
device_supports_method d TrpcMethod.current_floor_temperature = true
device_supports_method d TrpcMethod.current_temperature = true
device_supports_method d TrpcMethod.setback_state = true
device_supports_method d _ = false

-- The function `require_device_support`.
unfoldable pub require_device_support : DiscoveredDevice → TrpcMethod → Result (Unit {0})
unfolding device_supports_method
require_device_support d method =
    if device_supports_method d method then ok tt else err protocol_error
