-- ===== src/State/Tests.antt =====
-- Runs of the model of src/tekmar_482/state.py at concrete inputs.
use tekmar.Prelude.{ℕ, ◌≡◌, ◌≢◌, refl, true, false, none, some, [], ◌∷◌, ◌==◌, if◌then◌else◌}
use tekmar.Prelude.Dict.{lookup, insert}
use tekmar.Trpc.Spec.{field_aliases}
use tekmar.Trpc.Methods.{TrpcMethod}
use tekmar.Trpc.Lookup.{method_spec}
use tekmar.Trpc.Message.{TrpcPacket, get}
use tekmar.Models.Setpoints.{no_values}
use tekmar.Models.Device.{DiscoveredDevice}
use tekmar.Models.Runtime.{
  DeviceValue, DeviceRuntime, add_value, with_scalar, GatewayInfo, DeviceSnapshot, AvailableInfo,
  DiscoveryResult,
}
use tekmar.State.Apply.{
  updated, raises_type_error, has_address, update_runtime, new_runtime, apply_gateway_message,
  apply_device_message, apply_message,
}
use tekmar.State.Apply.Devices.{snapshot_at, apply_device_message_lem}
use tekmar.State.Apply.Total.{apply_message-total}

abbrev device_at : ℕ → DiscoveredDevice
device_at address = record {
  address = address;
  type_code = some 105103;
  version = none;
  attributes = 1;
  setback_events = none;
}

abbrev runtime_at : ℕ → DeviceRuntime
runtime_at address = record {
  info = device_at address;
  available_values = λ v. false;
  current_temperature_raw = none;
  current_floor_temperature_raw = none;
  active_demand_raw = none;
  setback_state_raw = none;
  mode_setting_raw = none;
  relative_humidity_raw = none;
  humidity_setpoint_min_raw = none;
  humidity_setpoint_max_raw = none;
  setpoint_targets_raw = no_values;
  heat_setpoints_raw = no_values;
  cool_setpoints_raw = no_values;
  slab_setpoints_raw = no_values;
  fan_percent_raw = no_values;
}

abbrev snapshot_of : ℕ → DeviceSnapshot
snapshot_of address = record { runtime = runtime_at address }

abbrev gateway_info : GatewayInfo
gateway_info = record { firmware_revision = some 1; protocol_version = some 2 }

abbrev two_devices : DiscoveryResult
two_devices = record { gateway = gateway_info; devices = device_at 1101 ∷ device_at 1102 ∷ [] }

abbrev two_snapshots : AvailableInfo
two_snapshots = record {
  gateway = record {
    info = gateway_info;
    outdoor_temp = none;
    network_error = none;
    date_time = none;
    reporting_enabled = none;
    setback_enabled = none;
    setpoint_groups = none;
  };
  devices = snapshot_of 1101 ∷ snapshot_of 1102 ∷ [];
}

abbrev temperature : TrpcPacket
temperature = record {
  service_id = 2;
  method_id = 0x137;
  body = ("address", 1102) ∷ ("temp", 700) ∷ [];
  extra = [];
}

abbrev warm : DeviceRuntime
warm = record (runtime_at 1102) {
  available_values = add_value (λ v. false) DeviceValue.current_temperature;
  current_temperature_raw = some 700;
}

snapshot_at-1102 : snapshot_at two_snapshots 1102 ≡ some (snapshot_of 1102)
unfolding snapshot_at
snapshot_at-1102 = refl

update_runtime-warm :
    update_runtime TrpcMethod.current_temperature (runtime_at 1102) temperature ≡ new_runtime warm
unfolding update_runtime with_scalar get lookup method_spec field_aliases insert
update_runtime-warm = refl

has_address-1101 : has_address two_devices.devices 1101 ≡ true
unfolding has_address
has_address-1101 = refl

apply_device_message_lem_example :
    (after : AvailableInfo) × (apply_device_message two_devices two_snapshots 1102
        TrpcMethod.current_temperature temperature
      ≡ updated after)
    × (after.gateway ≡ two_snapshots.gateway)
    × (snapshot_at after 1101 ≡ (
        if 1102 == 1101 then some (record { runtime = warm }) else snapshot_at two_snapshots 1101))
apply_device_message_lem_example =
    apply_device_message_lem two_devices two_snapshots 1102 1101 TrpcMethod.current_temperature
      temperature (snapshot_of 1102) warm snapshot_at-1102 update_runtime-warm has_address-1101

apply_message-total_example :
    apply_message two_devices two_snapshots temperature ≢ raises_type_error
apply_message-total_example = apply_message-total two_devices two_snapshots temperature

abbrev outdoor : TrpcPacket
outdoor = record { service_id = 2; method_id = 0x117; body = ("temp", 5) ∷ []; extra = [] }

abbrev outdoor_after : AvailableInfo
outdoor_after = record two_snapshots {
  gateway = record two_snapshots.gateway { outdoor_temp = some 5 };
}

apply_gateway_message-outdoor :
    apply_gateway_message two_snapshots TrpcMethod.outdoor_temp outdoor ≡ updated outdoor_after
unfolding apply_gateway_message get lookup method_spec field_aliases
apply_gateway_message-outdoor = refl
