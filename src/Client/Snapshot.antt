-- ===== src/Client/Snapshot.antt =====
-- The snapshots in src/tekmar_482/client.py: `_dump_device_snapshot`, `poll_devices`,
-- `poll_gateway`, `poll_runtime` and `dump_available_info`.
use tekmar.Prelude.{
  ℕ, zero, suc, ◌+◌, Bool, true, false, ◌&&◌, ◌||◌, Option, none, some, List, [], ◌∷◌, ◌==◌,
}
use tekmar.Prelude.Dict.{number_key, Map, insert}
use tekmar.Trpc.Fields.{nothing, mapping, payload, setpoint_group_fields}
use tekmar.Trpc.Methods.{TrpcMethod}
use tekmar.Trpc.Message.{TrpcPacket, require}
use tekmar.Models.Setback.{setback_from_value}
use tekmar.Models.Device.{
  DiscoveredDevice, supports_heat_setpoint, supports_cool_setpoint, supports_slab_setpoint,
  supports_fan_percent, supports_humidity, supports_setpoint_device, supports_mode_setting,
}
use tekmar.Models.Runtime.{
  DeviceValue, GatewayDateTime, GatewayInfo, GatewaySnapshot, DeviceSnapshot, AvailableInfo,
  DiscoveryResult,
}
use tekmar.State.Apply.{as_bool}
use tekmar.Client.Action.{Action, ◌>>=◌, ◌>>◌, give, lift_result, when, for_each}
use tekmar.Client.Calls.{SessionCalls, matching, request_response, delay}
use tekmar.Client.Discovery.{get_gateway_info, discover}
use tekmar.Client.Poll.{got, request_field, device_field, field_if, setpoints_if}

-- `protocol_version == version`.
abbrev pub is_version : Option ℕ → ℕ → Bool
is_version none version = false
is_version (some v) version = v == version

abbrev pub has_humidity : DiscoveredDevice → Option ℕ → Bool
has_humidity device protocol =
    supports_humidity device && (is_version protocol 2 || is_version protocol 3)

-- The set `available_values` at the end of `_dump_device_snapshot`.
unfoldable pub polled_values : DiscoveredDevice → Option ℕ → DeviceValue → Bool
unfolding supports_heat_setpoint supports_cool_setpoint supports_slab_setpoint supports_fan_percent
    supports_humidity supports_setpoint_device supports_mode_setting
polled_values d protocol DeviceValue.current_temperature = true
polled_values d protocol DeviceValue.active_demand = true
polled_values d protocol DeviceValue.setback_state = true
polled_values d protocol DeviceValue.current_floor_temperature = is_version protocol 3
polled_values d protocol DeviceValue.mode_setting = supports_mode_setting d
polled_values d protocol DeviceValue.heat_setpoints = supports_heat_setpoint d
polled_values d protocol DeviceValue.cool_setpoints = supports_cool_setpoint d
polled_values d protocol DeviceValue.slab_setpoints = supports_slab_setpoint d
polled_values d protocol DeviceValue.fan_percent = supports_fan_percent d
polled_values d protocol DeviceValue.relative_humidity = has_humidity d protocol
polled_values d protocol DeviceValue.humidity_setpoint_min = has_humidity d protocol
polled_values d protocol DeviceValue.humidity_setpoint_max = has_humidity d protocol
polled_values d protocol DeviceValue.setpoint_targets = supports_setpoint_device d

-- The end of `get_datetime`.
unfoldable pub datetime_of : {W : Type 0} → Option TrpcPacket → Action W (Option GatewayDateTime)
datetime_of none = give none
datetime_of (some m) = do
  year ← lift_result (require m "year")
  month ← lift_result (require m "month")
  day ← lift_result (require m "day")
  weekday ← lift_result (require m "weekday")
  hour ← lift_result (require m "hour")
  minute ← lift_result (require m "minute")
  give (
      some (record {
        year = year;
        month = month;
        day = day;
        weekday = weekday;
        hour = hour;
        minute = minute;
      }))

-- A part of the gateway's snapshot that is polled on demand.
joined : {A : Type 0} → Option (Option A) → Option A
joined none = none
joined (some value) = value

module _ {W : Type 0} (session : SessionCalls W) where
  -- `_dump_device_snapshot`.
  unfoldable pub dump_device_snapshot :
      Bool → Option ℕ → Bool → DiscoveredDevice → Action W DeviceSnapshot
  unfolding device_field field_if setpoints_if setback_from_value polled_values
      supports_heat_setpoint supports_cool_setpoint supports_slab_setpoint supports_fan_percent
      supports_humidity supports_setpoint_device supports_mode_setting
  dump_device_snapshot delayed protocol include_setbacks d = do
    temperature ← device_field session delayed TrpcMethod.current_temperature "temp" d.address
    demand ← device_field session delayed TrpcMethod.active_demand "demand" d.address
    state ← device_field session delayed TrpcMethod.setback_state "setback" d.address
    let active = setback_from_value state
    floor ←
        field_if session (is_version protocol 3) delayed TrpcMethod.current_floor_temperature "temp"
          d.address
    mode ←
        field_if session (supports_mode_setting d) delayed TrpcMethod.mode_setting "mode" d.address
    heat ←
        setpoints_if session (supports_heat_setpoint d) delayed include_setbacks active
          TrpcMethod.heat_setpoint "setpoint" d.address
    cool ←
        setpoints_if session (supports_cool_setpoint d) delayed include_setbacks active
          TrpcMethod.cool_setpoint "setpoint" d.address
    slab ←
        setpoints_if session (supports_slab_setpoint d) delayed include_setbacks active
          TrpcMethod.slab_setpoint "setpoint" d.address
    fan ←
        setpoints_if session (supports_fan_percent d) delayed include_setbacks active
          TrpcMethod.fan_percent "percent" d.address
    humidity ←
        field_if session (has_humidity d protocol) delayed TrpcMethod.relative_humidity "percent"
          d.address
    humidity_min ←
        field_if session (has_humidity d protocol) delayed TrpcMethod.humidity_set_min "percent"
          d.address
    humidity_max ←
        field_if session (has_humidity d protocol) delayed TrpcMethod.humidity_set_max "percent"
          d.address
    targets ←
        setpoints_if session (supports_setpoint_device d) delayed include_setbacks active
          TrpcMethod.setpoint_device "temp" d.address
    give (record {
      runtime = record {
        info = d;
        available_values = polled_values d protocol;
        current_temperature_raw = temperature;
        current_floor_temperature_raw = floor;
        active_demand_raw = demand;
        setback_state_raw = state;
        mode_setting_raw = mode;
        relative_humidity_raw = humidity;
        humidity_setpoint_min_raw = humidity_min;
        humidity_setpoint_max_raw = humidity_max;
        setpoint_targets_raw = targets;
        heat_setpoints_raw = heat;
        cool_setpoints_raw = cool;
        slab_setpoints_raw = slab;
        fan_percent_raw = fan;
      };
    })

  unfoldable pub poll_devices :
      Bool → Option ℕ → Bool → List DiscoveredDevice → Action W (List DeviceSnapshot)
  unfolding for_each dump_device_snapshot
  poll_devices delayed protocol include_setbacks devices =
      for_each (dump_device_snapshot delayed protocol include_setbacks) devices

  -- The loop of `_dump_setpoint_groups` over `range(group_id, group_id + count)`.
  unfoldable pub dump_groups : Bool → ℕ → ℕ → Map ℕ (Option Bool) → Action W (Map ℕ (Option Bool))
  unfolding request_response delay got as_bool insert
  dump_groups delayed zero group_id groups = give groups
  dump_groups delayed (suc count) group_id groups = do
    message ←
        request_response session TrpcMethod.setpoint_group_enable
          (matching none (mapping (("group_id", group_id) ∷ [])))
          (payload (setpoint_group_fields group_id none))
    delay session delayed
    dump_groups delayed count (group_id + 1)
        (insert group_id (as_bool (got message "enable")) groups)

  unfoldable pub dump_setpoint_groups : Bool → Action W (Map ℕ (Option Bool))
  unfolding dump_groups
  dump_setpoint_groups delayed = dump_groups delayed 12 1 []

  -- With no closure `delay` it does not pause.
  unfoldable pub get_datetime : Bool → Action W (Option GatewayDateTime)
  unfolding request_response delay datetime_of
  get_datetime delayed = do
    message ← request_response session TrpcMethod.date_time (matching none nothing) nothing
    delay session delayed
    datetime_of message

  info_or_polled : Bool → Option GatewayInfo → Action W GatewayInfo
  unfolding get_gateway_info delay
  info_or_polled delayed (some info) = give info
  info_or_polled delayed none = do info ← get_gateway_info session; delay session delayed; give info

  unfoldable pub poll_gateway : Bool → Option GatewayInfo → Bool → Bool → Action W GatewaySnapshot
  unfolding info_or_polled request_field get_datetime dump_setpoint_groups joined as_bool
  poll_gateway delayed gateway_info include_datetime include_groups = do
    info ← info_or_polled delayed gateway_info
    reporting ← request_field session delayed TrpcMethod.reporting_state "state" none nothing
    setback ← request_field session delayed TrpcMethod.setback_enable "enable" none nothing
    outdoor ← request_field session delayed TrpcMethod.outdoor_temp "temp" none nothing
    error ← request_field session delayed TrpcMethod.network_error "error" none nothing
    date_time ← when include_datetime (get_datetime delayed)
    groups ← when include_groups (dump_setpoint_groups delayed)
    give (record {
      info = info;
      outdoor_temp = outdoor;
      network_error = error;
      date_time = joined date_time;
      reporting_enabled = as_bool reporting;
      setback_enabled = as_bool setback;
      setpoint_groups = groups;
    })

  unfoldable pub poll_runtime : Bool → Bool → Bool → Bool → DiscoveryResult → Action W AvailableInfo
  unfolding poll_gateway poll_devices
  poll_runtime delayed include_setbacks include_datetime include_groups discovery = do
    gateway ← poll_gateway delayed (some discovery.gateway) include_datetime include_groups
    devices ←
        poll_devices delayed discovery.gateway.protocol_version include_setbacks discovery.devices
    give (record { gateway = gateway; devices = devices })

  unfoldable pub dump_available_info : ℕ → Bool → Bool → Bool → Action W AvailableInfo
  unfolding discover poll_runtime
  dump_available_info rounds delayed include_setbacks include_datetime = do
    discovery ← discover session rounds false none delayed
    poll_runtime delayed include_setbacks include_datetime true discovery
