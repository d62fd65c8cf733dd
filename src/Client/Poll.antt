-- ===== src/Client/Poll.antt =====
-- Polling in src/tekmar_482/client.py: `poll_gateway`, `poll_devices`, `_dump_device_snapshot`,
-- `_dump_setpoints`, and the runtime snapshot that they make up.
pub mod Current
use tekmar.Prelude.{
  ℕ, suc, ◌+◌, String, Bool, true, false, ◌&&◌, ◌||◌, Option, none, some, List, [], ◌∷◌, ◌==◌,
  if◌then◌else◌, map,
}
use mathlib.Core.Option
use tekmar.Prelude.Dict.{number_key, Map, insert}
use tekmar.Trpc.Fields.{
  FieldsInput, nothing, mapping, payload, address_fields, address_setback_fields,
  setpoint_group_fields, match_fields,
}
use tekmar.Trpc.Methods.{TrpcMethod}
use tekmar.Trpc.Message.{TrpcPacket, get, require}
use tekmar.Models.Setback.{
  ThaSetback, wake_4, current_setback, setback_value, all_setbacks, same_setback, setback_key,
  setback_from_value,
}
use tekmar.Models.Setpoints.{SetpointValues}
use tekmar.Models.Device.{
  DiscoveredDevice, supports_heat_setpoint, supports_cool_setpoint, supports_slab_setpoint,
  supports_fan_percent, supports_humidity, supports_setpoint_device, supports_mode_setting,
}
use tekmar.Models.Runtime.{
  DeviceValue, DeviceRuntime, GatewayDateTime, GatewayInfo, GatewaySnapshot, DeviceSnapshot,
  AvailableInfo, DiscoveryResult,
}
use tekmar.State.Apply.{as_bool}
use tekmar.Client.Action.{Action, ◌>>=◌, ◌>>◌, give, lift_result, when, for_each}
use tekmar.Client.Calls.{SessionCalls, matching, request_response, delay}
use tekmar.Client.Discovery.{get_gateway_info}

-- `message.get(field) if message is not None else None`.
unfoldable pub got : Option TrpcPacket → String → Option ℕ
unfolding get
got none field = none
got (some m) field = get m field

-- `first or second` on `ThaSetback | None`: WAKE_4 is 0, which is false in Python.
unfoldable pub setback_or : Option ThaSetback → Option ThaSetback → Option ThaSetback
unfolding same_setback
setback_or none second = second
setback_or (some s) second = if same_setback s wake_4 then second else some s

-- The variables of the loop in `_dump_setpoints`.
pub record Observed : Type 0 where
  pub values : Map ThaSetback (Option ℕ)
  pub observed_active : Option ThaSetback
  pub current_observed : Option ThaSetback

store_if : Option ThaSetback → Option ℕ → Map ThaSetback (Option ℕ) → Map ThaSetback (Option ℕ)
store_if none value values = values
store_if (some setback) value values = insert setback value values

-- An answer to the request for CURRENT.
unfoldable pub observe_current : String → TrpcPacket → Observed → Observed
unfolding setback_or setback_from_value get store_if
observe_current field m o =
    let seen = setback_or (setback_from_value (get m "setback")) o.observed_active in
    record {
      values = store_if seen (get m field) o.values;
      observed_active = setback_or seen o.observed_active;
      current_observed = seen;
    }

observe_if : Bool → String → Option TrpcPacket → Observed → Observed
unfolding observe_current
observe_if true field (some m) o = observe_current field m o
observe_if true field none o = o
observe_if false field message o = o

-- The body of the loop, behind the request.
unfoldable pub observe : ThaSetback → String → Option TrpcPacket → Observed → Observed
unfolding observe_if same_setback got
observe setback field message o =
    let seen = observe_if (same_setback setback current_setback) field message o in
    record seen { values = insert setback (got message field) seen.values }

-- `None if setback is ThaSetback.CURRENT else fields.match_fields()`.
setback_match : ℕ → ThaSetback → FieldsInput
unfolding same_setback setback_value
setback_match address setback =
    if same_setback setback current_setback
    then nothing
    else mapping (("setback", setback_value setback) ∷ [])

module _ {W : Type 0} (session : SessionCalls W) where
  -- The closures `request_field`; `_dump_device_snapshot` requests at an address.
  unfoldable pub request_field :
      Bool → TrpcMethod → String → Option ℕ → FieldsInput → Action W (Option ℕ)
  unfolding request_response delay got
  request_field delayed method field address fields = do
    message ← request_response session method (matching address nothing) fields
    delay session delayed
    give (got message field)

  unfoldable pub device_field : Bool → TrpcMethod → String → ℕ → Action W (Option ℕ)
  unfolding request_field
  device_field delayed method field address =
      request_field delayed method field (some address) (payload (address_fields address))

  unfoldable pub dump_loop :
      Bool → TrpcMethod → String → ℕ → List ThaSetback → Observed → Action W Observed
  unfolding request_response delay observe setback_match setback_value
  dump_loop delayed method field address [] o = give o
  dump_loop delayed method field address (setback ∷ rest) o = do
    message ←
        request_response session method (matching (some address) (setback_match address setback))
          (payload (address_setback_fields address (setback_value setback)))
    delay session delayed
    dump_loop delayed method field address rest (observe setback field message o)

  -- `_dump_setpoints`.
  unfoldable pub dump_setpoints :
      Bool → Bool → Option ThaSetback → TrpcMethod → String → ℕ → Action W SetpointValues
  unfolding dump_loop
  dump_setpoints delayed include_setbacks active method field address = do
    o ←
        dump_loop delayed method field address
          (if include_setbacks then all_setbacks else current_setback ∷ [])
          (record { values = []; observed_active = active; current_observed = none })
    give (record {
      values = o.values;
      active_setback = o.observed_active;
      current_observed_setback = o.current_observed;
    })

  -- The setpoints of a kind that the device supports, or an empty `SetpointValues`.
  unfoldable pub setpoints_if :
      Bool → Bool → Bool → Option ThaSetback → TrpcMethod → String → ℕ → Action W SetpointValues
  unfolding dump_setpoints
  setpoints_if true delayed include_setbacks active method field address =
      dump_setpoints delayed include_setbacks active method field address
  setpoints_if false delayed include_setbacks active method field address =
      give (record { values = []; active_setback = active; current_observed_setback = none })

  unfoldable pub field_if : Bool → Bool → TrpcMethod → String → ℕ → Action W (Option ℕ)
  unfolding device_field
  field_if true delayed method field address = device_field delayed method field address
  field_if false delayed method field address = give none
