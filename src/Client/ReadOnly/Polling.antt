-- ===== src/Client/ReadOnly/Polling.antt =====
-- Polling keeps what requests keep (src/tekmar_482/client.py).
use tekmar.Prelude.{ℕ, zero, suc, ◌+◌, Bool, true, false, String, Option, none, some, List, [], ◌∷◌}
use tekmar.Prelude.Dict.{number_key, Map}
use tekmar.Trpc.Fields.{FieldsInput, payload, address_fields}
use tekmar.Trpc.Methods.{TrpcMethod}
use tekmar.Trpc.Message.{TrpcPacket}
use tekmar.Models.Setback.{ThaSetback}
use tekmar.Models.Device.{DiscoveredDevice}
use tekmar.Models.Runtime.{GatewayInfo, DiscoveryResult}
use tekmar.Client.Calls.{SessionCalls}
use tekmar.Client.Poll.{
  Observed, request_field, device_field, dump_loop, dump_setpoints, setpoints_if, field_if,
}
use tekmar.Client.Snapshot.{
  dump_device_snapshot, poll_devices, dump_groups, dump_setpoint_groups, datetime_of, get_datetime,
  poll_gateway, poll_runtime,
}
use tekmar.Client.ReadOnly.{
  Keeps, RequestsKeep, bind-Keeps, give-Keeps, when-Keeps, lift_result-Keeps, for_each-Keeps,
  request_response-Keeps, delay-Keeps,
}

module _ {W : Type 0} (session : SessionCalls W) (P : W → Type 0)
    (keep : RequestsKeep session P) where
  pub request_field-Keeps :
      (delayed : Bool) (method : TrpcMethod) (field : String) (address : Option ℕ)
      (fields : FieldsInput)
      → Keeps P (request_field session delayed method field address fields)
  unfolding request_field
  request_field-Keeps delayed method field address fields =
      search
        (bind-Keeps, give-Keeps, request_response-Keeps session P keep, delay-Keeps session P keep)

  pub device_field-Keeps :
      (delayed : Bool) (method : TrpcMethod) (field : String) (address : ℕ)
      → Keeps P (device_field session delayed method field address)
  unfolding device_field
  device_field-Keeps delayed method field address =
      request_field-Keeps delayed method field (some address) (payload (address_fields address))

  pub field_if-Keeps :
      (wanted delayed : Bool) (method : TrpcMethod) (field : String) (address : ℕ)
      → Keeps P (field_if session wanted delayed method field address)
  unfolding field_if
  field_if-Keeps true delayed method field address = device_field-Keeps delayed method field address
  field_if-Keeps false delayed method field address = give-Keeps P none

  pub dump_loop-Keeps :
      (delayed : Bool) (method : TrpcMethod) (field : String) (address : ℕ)
      (setbacks : List ThaSetback) (o : Observed)
      → Keeps P (dump_loop session delayed method field address setbacks o)
  unfolding dump_loop
  dump_loop-Keeps delayed method field address [] o = give-Keeps P o
  dump_loop-Keeps delayed method field address (setback ∷ rest) o = search (
    bind-Keeps,
    request_response-Keeps session P keep,
    delay-Keeps session P keep,
    dump_loop-Keeps delayed method field address rest,
  )

  pub dump_setpoints-Keeps :
      (delayed include_setbacks : Bool) (active : Option ThaSetback) (method : TrpcMethod)
      (field : String) (address : ℕ)
      → Keeps P (dump_setpoints session delayed include_setbacks active method field address)
  unfolding dump_setpoints
  dump_setpoints-Keeps delayed include_setbacks active method field address =
      search (bind-Keeps, give-Keeps, dump_loop-Keeps)

  pub setpoints_if-Keeps :
      (wanted delayed include_setbacks : Bool) (active : Option ThaSetback) (method : TrpcMethod)
      (field : String) (address : ℕ)
      → Keeps P (setpoints_if session wanted delayed include_setbacks active method field address)
  unfolding setpoints_if
  setpoints_if-Keeps true delayed include_setbacks active method field address =
      dump_setpoints-Keeps delayed include_setbacks active method field address
  setpoints_if-Keeps false delayed include_setbacks active method field address = give-Keeps P _

  pub dump_device_snapshot-Keeps :
      (delayed : Bool) (protocol : Option ℕ) (include_setbacks : Bool) (d : DiscoveredDevice)
      → Keeps P (dump_device_snapshot session delayed protocol include_setbacks d)
  unfolding dump_device_snapshot
  dump_device_snapshot-Keeps delayed protocol include_setbacks d =
      search (bind-Keeps, give-Keeps, device_field-Keeps, field_if-Keeps, setpoints_if-Keeps) depth
        20

  pub poll_devices-Keeps :
      (delayed : Bool) (protocol : Option ℕ) (include_setbacks : Bool)
      (devices : List DiscoveredDevice)
      → Keeps P (poll_devices session delayed protocol include_setbacks devices)
  unfolding poll_devices
  poll_devices-Keeps delayed protocol include_setbacks devices =
      for_each-Keeps P (dump_device_snapshot session delayed protocol include_setbacks) devices
        (dump_device_snapshot-Keeps delayed protocol include_setbacks)

  pub dump_groups-Keeps :
      (delayed : Bool) (count group_id : ℕ) (groups : Map ℕ (Option Bool))
      → Keeps P (dump_groups session delayed count group_id groups)
  unfolding dump_groups
  dump_groups-Keeps delayed zero group_id groups = give-Keeps P groups
  dump_groups-Keeps delayed (suc count) group_id groups = search (
    bind-Keeps,
    request_response-Keeps session P keep,
    delay-Keeps session P keep,
    dump_groups-Keeps delayed count (group_id + 1),
  )

  pub datetime_of-Keeps : (found : Option TrpcPacket) → Keeps P (datetime_of {W = W} found)
  unfolding datetime_of
  datetime_of-Keeps none = give-Keeps P none
  datetime_of-Keeps (some m) = search (bind-Keeps, lift_result-Keeps, give-Keeps) depth 20

  pub get_datetime-Keeps : (delayed : Bool) → Keeps P (get_datetime session delayed)
  unfolding get_datetime
  get_datetime-Keeps delayed = search (
    bind-Keeps,
    request_response-Keeps session P keep,
    delay-Keeps session P keep,
    datetime_of-Keeps,
  )

  pub dump_setpoint_groups-Keeps : (delayed : Bool) → Keeps P (dump_setpoint_groups session delayed)
  unfolding dump_setpoint_groups
  dump_setpoint_groups-Keeps delayed = dump_groups-Keeps delayed 12 1 []

  pub poll_gateway-Keeps :
      (delayed : Bool) (info : GatewayInfo) (include_datetime include_groups : Bool)
      → Keeps P (poll_gateway session delayed (some info) include_datetime include_groups)
  unfolding poll_gateway
  poll_gateway-Keeps delayed info include_datetime include_groups =
      search
        (
          bind-Keeps, give-Keeps, request_field-Keeps, when-Keeps, get_datetime-Keeps,
          dump_setpoint_groups-Keeps,
        )
        depth 20

  pub poll_runtime-Keeps :
      (delayed include_setbacks include_datetime include_groups : Bool)
      (discovery : DiscoveryResult)
      → Keeps P
          (poll_runtime session delayed include_setbacks include_datetime include_groups discovery)
  unfolding poll_runtime
  poll_runtime-Keeps delayed include_setbacks include_datetime include_groups discovery =
      search (bind-Keeps, give-Keeps, poll_gateway-Keeps, poll_devices-Keeps)
