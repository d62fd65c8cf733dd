-- ===== src/State/Apply/Total.antt =====
-- The tables of src/tekmar_482/state.py fit the updates of a runtime: no message raises TypeError.
use tekmar.Prelude.{
  ℕ, String, ◌≡◌, ◌≢◌, refl, false, ◌||◌, ◌&&◌, Option, none, some, [], if◌then◌else◌, if_both,
  arith,
}
use tekmar.Prelude.Dict.{number_key, Map, lookup}
use tekmar.Trpc.Methods.{TrpcMethod}
use tekmar.Trpc.Lookup.{method_of_id}
use tekmar.Trpc.Message.{TrpcPacket, get}
use tekmar.Models.Setback.{ThaSetback, setback_from_value}
use tekmar.Models.Device.{DiscoveredDevice}
use tekmar.Models.Runtime.{
  DeviceValue, DeviceRuntime, with_scalar, with_setpoint, DeviceSnapshot, AvailableInfo,
  DiscoveryResult,
}
use tekmar.State.{
  is_runtime_message, is_gateway_method, setpoint_method, scalar_method, is_device_method, is_known,
  device_supports_method,
}
use tekmar.State.Apply.{
  Applied, raises_type_error, RuntimeUpdate, type_error, from_stored, setpoint_report,
  apply_setpoint_report, update_by_entry, update_runtime, apply_gateway_message, store_update,
  apply_to_snapshot, apply_device_message, add_snapshots, has_address, apply_at, apply_method,
  apply_message,
}

-- The entry of the scalar table, or of the setpoint table, fits.
scalar_method-stored :
    (method : TrpcMethod) (entry : DeviceValue × String) (r : DeviceRuntime) (raw : Option ℕ)
    → scalar_method method ≡ some entry
    → with_scalar r entry.0 raw ≢ none
unfolding scalar_method with_scalar
scalar_method-stored method entry r raw e h = ground arith

setpoint_method-stored :
    (method : TrpcMethod) (entry : DeviceValue × String) (r : DeviceRuntime) (setback : ThaSetback)
    (raw : Option ℕ)
    → setpoint_method method ≡ some entry
    → with_setpoint r entry.0 setback raw ≢ none
unfolding setpoint_method with_setpoint
setpoint_method-stored method entry r setback raw e h = ground arith

-- The tables of the gateway's methods, of the scalars and of the setpoints have no method in common,
-- and the last two together are the methods of a device's values, which are those that a device can
-- support.
pub method_tables :
    (d : DiscoveredDevice) (method : TrpcMethod)
    → (is_device_method method
        ≡ (is_known (scalar_method method) || is_known (setpoint_method method)))
      × ((is_known (scalar_method method) && is_known (setpoint_method method)) ≡ false)
      × ((is_gateway_method method && is_device_method method) ≡ false)
      × ((device_supports_method d method && is_device_method method)
          ≡ device_supports_method d method)
unfolding is_device_method scalar_method setpoint_method is_gateway_method device_supports_method
method_tables d method = (ground arith, ground arith, ground arith, ground arith)

from_stored-total :
    (stored : Option DeviceRuntime) → stored ≢ none → from_stored stored ≢ type_error
unfolding from_stored
from_stored-total none h e = h refl
from_stored-total (some r) h e = cc

setpoint_report-total :
    (method : TrpcMethod) (r : DeviceRuntime) (entry : DeviceValue × String)
    (setback : Option ThaSetback) (m : TrpcPacket)
    → setpoint_method method ≡ some entry
    → setpoint_report r entry setback m ≢ type_error
unfolding setpoint_report
setpoint_report-total method r entry none m h = λ e. cc
setpoint_report-total method r entry (some setback) m h =
    from_stored-total (with_setpoint r entry.0 setback (get m entry.1))
      (setpoint_method-stored method entry r setback (get m entry.1) h)

update_by_entry-total :
    (method : TrpcMethod) (scalar setpoint : Option (DeviceValue × String)) (r : DeviceRuntime)
    (m : TrpcPacket)
    → scalar_method method ≡ scalar
    → setpoint_method method ≡ setpoint
    → update_by_entry scalar setpoint r m ≢ type_error
unfolding update_by_entry apply_setpoint_report
update_by_entry-total method (some entry) setpoint r m h k =
    from_stored-total (with_scalar r entry.0 (get m entry.1))
      (scalar_method-stored method entry r (get m entry.1) h)
update_by_entry-total method none (some entry) r m h k =
    setpoint_report-total method r entry (setback_from_value (get m "setback")) m k
update_by_entry-total method none none r m h k = λ e. cc

store_update-total :
    (discovery : DiscoveryResult) (info : AvailableInfo) (address : ℕ)
    (snapshots : Map ℕ DeviceSnapshot) (u : RuntimeUpdate)
    → u ≢ type_error
    → store_update discovery info address snapshots u ≢ raises_type_error
unfolding store_update
store_update-total discovery info address snapshots RuntimeUpdate.no_update h e = cc
store_update-total discovery info address snapshots type_error h e = h refl
store_update-total discovery info address snapshots (RuntimeUpdate.new_runtime r) h e = cc

apply_to_snapshot-total :
    (discovery : DiscoveryResult) (info : AvailableInfo) (address : ℕ) (method : TrpcMethod)
    (m : TrpcPacket) (snapshots : Map ℕ DeviceSnapshot) (found : Option DeviceSnapshot)
    → apply_to_snapshot discovery info address method m snapshots found ≢ raises_type_error
unfolding apply_to_snapshot update_runtime
apply_to_snapshot-total discovery info address method m snapshots none = λ e. cc
apply_to_snapshot-total discovery info address method m snapshots (some s) =
    store_update-total discovery info address snapshots
      (update_by_entry (scalar_method method) (setpoint_method method) s.runtime m)
      (update_by_entry-total method (scalar_method method) (setpoint_method method) s.runtime m refl
        refl)

apply_at-total :
    (discovery : DiscoveryResult) (info : AvailableInfo) (address : Option ℕ) (method : TrpcMethod)
    (m : TrpcPacket)
    → apply_at discovery info address method m ≢ raises_type_error
unfolding apply_at apply_device_message
apply_at-total discovery info none method m = λ e. cc
apply_at-total discovery info (some address) method m =
    let snapshots = add_snapshots info.devices [] in
    if_both (λ a. a ≢ raises_type_error) (has_address discovery.devices address)
      (apply_device_message discovery info address method m) Applied.ignored
      (apply_to_snapshot-total discovery info address method m snapshots (lookup address snapshots))
      (λ e. cc)

apply_gateway_message-total :
    (info : AvailableInfo) (method : TrpcMethod) (m : TrpcPacket)
    → apply_gateway_message info method m ≢ raises_type_error
unfolding apply_gateway_message
apply_gateway_message-total info method m e = ground arith

apply_method-total :
    (discovery : DiscoveryResult) (info : AvailableInfo) (method : Option TrpcMethod)
    (m : TrpcPacket)
    → apply_method discovery info method m ≢ raises_type_error
unfolding apply_method
apply_method-total discovery info none m = λ e. cc
apply_method-total discovery info (some method) m =
    if_both (λ a. a ≢ raises_type_error) (is_gateway_method method)
      (apply_gateway_message info method m)
      (if is_device_method method
        then apply_at discovery info (get m "address") method m
        else Applied.ignored)
      (apply_gateway_message-total info method m)
      (if_both (λ a. a ≢ raises_type_error) (is_device_method method)
        (apply_at discovery info (get m "address") method m) Applied.ignored
        (apply_at-total discovery info (get m "address") method m) (λ e. cc))

-- No message raises TypeError, whatever the data: the tables lead each method to an update that its
-- value has.
pub apply_message-total :
    (discovery : DiscoveryResult) (info : AvailableInfo) (m : TrpcPacket)
    → apply_message discovery info m ≢ raises_type_error
unfolding apply_message
apply_message-total discovery info m =
    if_both (λ a. a ≢ raises_type_error) (is_runtime_message m)
      (apply_method discovery info (method_of_id m.method_id) m) Applied.ignored
      (apply_method-total discovery info (method_of_id m.method_id) m) (λ e. cc)

-- A message about the gateway leaves the devices as they are.
pub apply_gateway_message-devices :
    (info after : AvailableInfo) (method : TrpcMethod) (m : TrpcPacket)
    → apply_gateway_message info method m ≡ Applied.updated after
    → after.devices ≡ info.devices
unfolding apply_gateway_message
apply_gateway_message-devices info after method m e = ground arith
