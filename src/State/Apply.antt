-- ===== src/State/Apply.antt =====
-- `apply_message` of src/tekmar_482/state.py: the runtime data after one message.
pub mod Devices
pub mod Total
use tekmar.Prelude.{
  ℕ, String, Bool, true, false, ◌&&◌, ◌||◌, not, Option, none, some, List, [], ◌∷◌, ◌==◌, ltb,
  if◌then◌else◌,
}
use tekmar.Prelude.Dict.{number_key, Map, lookup, insert}
use tekmar.Trpc.Methods.{TrpcMethod}
use tekmar.Trpc.Lookup.{method_of_id}
use tekmar.Trpc.Message.{TrpcPacket, get}
use tekmar.Models.Setback.{ThaSetback, setback_from_value}
use tekmar.Models.Device.{DiscoveredDevice}
use tekmar.Models.Runtime.{
  DeviceValue, DeviceRuntime, with_scalar, with_setpoint, GatewayDateTime, GatewaySnapshot,
  DeviceSnapshot, AvailableInfo, DiscoveryResult,
}
use tekmar.State.{
  is_runtime_message, is_gateway_method, setpoint_method, scalar_method, is_device_method,
}

-- What `apply_message` does: None, new data, or the TypeError of a runtime's update.
pub data Applied : Type 0 where
  ignored raises_type_error : Applied
  updated : AvailableInfo → Applied

-- `None if value is None else bool(value)`.
unfoldable pub as_bool : Option ℕ → Option Bool
as_bool none = none
as_bool (some value) = some (ltb 0 value)

abbrev pub with_gateway : AvailableInfo → GatewaySnapshot → Applied
with_gateway info gateway = updated (record info { gateway = gateway })

-- `if year is None or … : return None`, field by field.
abbrev given : Option ℕ → (ℕ → Option GatewayDateTime) → Option GatewayDateTime
given none next = none
given (some value) next = next value

-- `_message_datetime`.
unfoldable pub message_datetime : TrpcPacket → Option GatewayDateTime
unfolding get
message_datetime m = given (get m "year") (λ year. given (get m "month") (λ month.
    given (get m "day") (λ day. given (get m "weekday") (λ weekday. given (get m "hour") (λ hour.
      given (get m "minute") (λ minute. some (record {
        year = year;
        month = month;
        day = day;
        weekday = weekday;
        hour = hour;
        minute = minute;
      })))))))

-- `dict(data.gateway.setpoint_groups or {})`.
groups_or_empty : Option (Map ℕ (Option Bool)) → Map ℕ (Option Bool)
groups_or_empty none = []
groups_or_empty (some groups) = groups

apply_group : AvailableInfo → Option ℕ → Option ℕ → Applied
unfolding groups_or_empty insert as_bool
apply_group info none enable = ignored
apply_group info (some group_id) enable = with_gateway info (record info.gateway {
  setpoint_groups =
      some (insert group_id (as_bool enable) (groups_or_empty info.gateway.setpoint_groups));
})

apply_date_time : AvailableInfo → Option GatewayDateTime → Applied
apply_date_time info none = ignored
apply_date_time info (some date_time) =
    with_gateway info (record info.gateway { date_time = some date_time })

-- `_apply_gateway_message`.
unfoldable pub apply_gateway_message : AvailableInfo → TrpcMethod → TrpcPacket → Applied
unfolding apply_group apply_date_time message_datetime as_bool get
apply_gateway_message info TrpcMethod.reporting_state m =
    with_gateway info (record info.gateway { reporting_enabled = as_bool (get m "state") })
apply_gateway_message info TrpcMethod.network_error m =
    with_gateway info (record info.gateway { network_error = get m "error" })
apply_gateway_message info TrpcMethod.outdoor_temp m =
    with_gateway info (record info.gateway { outdoor_temp = get m "temp" })
apply_gateway_message info TrpcMethod.setback_enable m =
    with_gateway info (record info.gateway { setback_enabled = as_bool (get m "enable") })
apply_gateway_message info TrpcMethod.setpoint_group_enable m =
    apply_group info (get m "group_id") (get m "enable")
apply_gateway_message info TrpcMethod.date_time m = apply_date_time info (message_datetime m)
apply_gateway_message info _ m = ignored

-- `{snapshot.info.address: snapshot for snapshot in devices}`, onto a dict.
pub add_snapshots : List DeviceSnapshot → Map ℕ DeviceSnapshot → Map ℕ DeviceSnapshot
unfolding insert
add_snapshots [] snapshots = snapshots
add_snapshots (s ∷ rest) snapshots = add_snapshots rest (insert s.runtime.info.address s snapshots)

cons_found : Option DeviceSnapshot → List DeviceSnapshot → List DeviceSnapshot
cons_found none rest = rest
cons_found (some snapshot) rest = snapshot ∷ rest

-- `tuple(snapshots[device.address] for device in devices if device.address in snapshots)`.
pub in_order : List DiscoveredDevice → Map ℕ DeviceSnapshot → List DeviceSnapshot
unfolding cons_found lookup
in_order [] snapshots = []
in_order (device ∷ rest) snapshots =
    cons_found (lookup device.address snapshots) (in_order rest snapshots)

-- The update of one runtime: None, a value, or TypeError.
pub data RuntimeUpdate : Type 0 where
  no_update type_error : RuntimeUpdate
  new_runtime : DeviceRuntime → RuntimeUpdate

from_stored : Option DeviceRuntime → RuntimeUpdate
from_stored none = type_error
from_stored (some runtime) = new_runtime runtime

setpoint_report :
    DeviceRuntime → DeviceValue × String → Option ThaSetback → TrpcPacket → RuntimeUpdate
unfolding from_stored with_setpoint get
setpoint_report runtime entry none m = no_update
setpoint_report runtime entry (some setback) m =
    from_stored (with_setpoint runtime entry.0 setback (get m entry.1))

-- `_apply_setpoint_report`, of an entry of `SETPOINT_METHODS`.
unfoldable pub apply_setpoint_report :
    DeviceRuntime → DeviceValue × String → TrpcPacket → RuntimeUpdate
unfolding setpoint_report setback_from_value get
apply_setpoint_report runtime entry m =
    setpoint_report runtime entry (setback_from_value (get m "setback")) m

update_by_entry :
    Option (DeviceValue × String)
    → Option (DeviceValue × String)
    → DeviceRuntime
    → TrpcPacket
    → RuntimeUpdate
unfolding from_stored with_scalar apply_setpoint_report get
update_by_entry (some entry) other runtime m =
    from_stored (with_scalar runtime entry.0 (get m entry.1))
update_by_entry none (some entry) runtime m = apply_setpoint_report runtime entry m
update_by_entry none none runtime m = no_update

-- The part of `_apply_device_message` that is about one device.
unfoldable pub update_runtime : TrpcMethod → DeviceRuntime → TrpcPacket → RuntimeUpdate
unfolding update_by_entry scalar_method setpoint_method
update_runtime method runtime m =
    update_by_entry (scalar_method method) (setpoint_method method) runtime m

store_update : DiscoveryResult → AvailableInfo → ℕ → Map ℕ DeviceSnapshot → RuntimeUpdate → Applied
unfolding in_order insert
store_update discovery info address snapshots no_update = ignored
store_update discovery info address snapshots type_error = raises_type_error
store_update discovery info address snapshots (new_runtime runtime) = updated (record info {
  devices = in_order discovery.devices (insert address (record { runtime = runtime }) snapshots);
})

apply_to_snapshot :
    DiscoveryResult
    → AvailableInfo
    → ℕ
    → TrpcMethod
    → TrpcPacket
    → Map ℕ DeviceSnapshot
    → Option DeviceSnapshot
    → Applied
unfolding store_update update_runtime
apply_to_snapshot discovery info address method m snapshots none = ignored
apply_to_snapshot discovery info address method m snapshots (some snapshot) =
    store_update discovery info address snapshots (update_runtime method snapshot.runtime m)

-- `_apply_device_message`.
unfoldable pub apply_device_message :
    DiscoveryResult → AvailableInfo → ℕ → TrpcMethod → TrpcPacket → Applied
unfolding apply_to_snapshot add_snapshots lookup
apply_device_message discovery info address method m =
    let snapshots = add_snapshots info.devices [] in
    apply_to_snapshot discovery info address method m snapshots (lookup address snapshots)

unfoldable pub has_address : List DiscoveredDevice → ℕ → Bool
has_address [] address = false
has_address (device ∷ rest) address = device.address == address || has_address rest address

apply_at : DiscoveryResult → AvailableInfo → Option ℕ → TrpcMethod → TrpcPacket → Applied
unfolding has_address apply_device_message
apply_at discovery info none method m = ignored
apply_at discovery info (some address) method m =
    if has_address discovery.devices address
    then apply_device_message discovery info address method m
    else ignored

apply_method : DiscoveryResult → AvailableInfo → Option TrpcMethod → TrpcPacket → Applied
unfolding is_gateway_method apply_gateway_message is_device_method apply_at get
apply_method discovery info none m = ignored
apply_method discovery info (some method) m =
    if is_gateway_method method
    then apply_gateway_message info method m
    else if is_device_method method
    then apply_at discovery info (get m "address") method m
    else ignored

-- The function `apply_message`.
unfoldable pub apply_message : DiscoveryResult → AvailableInfo → TrpcPacket → Applied
unfolding is_runtime_message apply_method method_of_id
apply_message discovery info m =
    if is_runtime_message m
    then apply_method discovery info (method_of_id m.method_id) m
    else ignored
