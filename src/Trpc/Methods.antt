-- ===== src/Trpc/Methods.antt =====
-- The services and methods of src/tekmar_482/trpc.py: `TrpcService`, `TrpcMethod`, the tables
-- `SERVICE_SPECS` and `METHOD_SPECS`.
pub mod Layout
use tekmar.Prelude.{ℕ, String, List, [], ◌∷◌}
use tekmar.Trpc.Spec.{FieldSpec, MethodSpec}

pub data TrpcService : Type 0 where
  update request report response_update response_request : TrpcService

unfoldable pub service_id : TrpcService → ℕ
service_id update = 0x00
service_id request = 0x01
service_id report = 0x02
service_id response_update = 0x03
service_id response_request = 0x04

abbrev pub all_services : List TrpcService
all_services = update ∷ request ∷ report ∷ response_update ∷ response_request ∷ []

-- `SERVICE_SPECS`.
unfoldable pub service_display : TrpcService → String
service_display update = "Update"
service_display request = "Request"
service_display report = "Report"
service_display response_update = "Response:Update"
service_display response_request = "Response:Request"

pub data TrpcMethod : Type 0 where
  null_method network_error reporting_state outdoor_temp : TrpcMethod
  device_attributes mode_setting active_demand current_temperature : TrpcMethod
  current_floor_temperature setpoint_group_enable setpoint_device heat_setpoint : TrpcMethod
  cool_setpoint slab_setpoint relative_humidity humidity_set_max : TrpcMethod
  humidity_set_min fan_percent taking_address device_inventory : TrpcMethod
  setback_enable setback_state setback_events firmware_revision : TrpcMethod
  protocol_version device_type device_version date_time : TrpcMethod

unfoldable pub method_id : TrpcMethod → ℕ
method_id null_method = 0x0
method_id network_error = 0x107
method_id reporting_state = 0x10F
method_id outdoor_temp = 0x117
method_id device_attributes = 0x11F
method_id mode_setting = 0x127
method_id active_demand = 0x12F
method_id current_temperature = 0x137
method_id current_floor_temperature = 0x138
method_id setpoint_group_enable = 0x13D
method_id setpoint_device = 0x13E
method_id heat_setpoint = 0x13F
method_id cool_setpoint = 0x147
method_id slab_setpoint = 0x14F
method_id relative_humidity = 0x150
method_id humidity_set_max = 0x151
method_id humidity_set_min = 0x152
method_id fan_percent = 0x157
method_id taking_address = 0x15F
method_id device_inventory = 0x167
method_id setback_enable = 0x16F
method_id setback_state = 0x177
method_id setback_events = 0x17F
method_id firmware_revision = 0x187
method_id protocol_version = 0x18F
method_id device_type = 0x197
method_id device_version = 0x19F
method_id date_time = 0x1A7

-- The members in the order of the enum, which is also the order of `METHOD_SPECS`.
abbrev pub all_methods : List TrpcMethod
all_methods =
    null_method ∷ network_error ∷ reporting_state ∷ outdoor_temp ∷ device_attributes ∷ mode_setting
    ∷ active_demand ∷ current_temperature ∷ current_floor_temperature ∷ setpoint_group_enable
    ∷ setpoint_device ∷ heat_setpoint ∷ cool_setpoint ∷ slab_setpoint ∷ relative_humidity
    ∷ humidity_set_max ∷ humidity_set_min ∷ fan_percent ∷ taking_address ∷ device_inventory
    ∷ setback_enable ∷ setback_state ∷ setback_events ∷ firmware_revision ∷ protocol_version
    ∷ device_type ∷ device_version ∷ date_time ∷ []

-- `_field`.
abbrev field : String → ℕ → List String → FieldSpec
field name size aliases = record { name = name; size = size; aliases = aliases }

abbrev spec : String → List FieldSpec → List String → MethodSpec
spec name fields aliases = record { name = name; fields = fields; aliases = aliases }

-- `METHOD_SPECS`.
unfoldable pub spec_of : TrpcMethod → MethodSpec
spec_of null_method = spec "NullMethod" [] []
spec_of network_error = spec "NetworkError" ((field "error" 2 []) ∷ []) []
spec_of reporting_state = spec "ReportingState" ((field "state" 1 []) ∷ []) []
spec_of outdoor_temp = spec "OutdoorTemp" ((field "temp" 2 []) ∷ []) ("OutdoorTemperature" ∷ [])
spec_of device_attributes =
    spec "DeviceAttributes" ((field "address" 2 []) ∷ (field "attributes" 2 []) ∷ []) []
spec_of mode_setting = spec "ModeSetting" ((field "address" 2 []) ∷ (field "mode" 1 []) ∷ []) []
spec_of active_demand = spec "ActiveDemand" ((field "address" 2 []) ∷ (field "demand" 1 []) ∷ []) []
spec_of current_temperature =
    spec "CurrentTemperature" ((field "address" 2 []) ∷ (field "temp" 2 []) ∷ []) []
spec_of current_floor_temperature =
    spec "CurrentFloorTemperature" ((field "address" 2 []) ∷ (field "temp" 2 []) ∷ []) []
spec_of setpoint_group_enable =
    spec "SetpointGroupEnable"
      ((field "group_id" 1 ("IDnumber" ∷ "groupid" ∷ [])) ∷ (field "enable" 1 ("Enable" ∷ [])) ∷ [])
      []
spec_of setpoint_device =
    spec "SetpointDevice"
      ((field "address" 2 []) ∷ (field "setback" 1 []) ∷ (field "temp" 2 []) ∷ []) []
spec_of heat_setpoint =
    spec "HeatSetpoint"
      ((field "address" 2 []) ∷ (field "setback" 1 []) ∷ (field "setpoint" 1 []) ∷ []) []
spec_of cool_setpoint =
    spec "CoolSetpoint"
      ((field "address" 2 []) ∷ (field "setback" 1 []) ∷ (field "setpoint" 1 []) ∷ []) []
spec_of slab_setpoint =
    spec "SlabSetpoint"
      ((field "address" 2 []) ∷ (field "setback" 1 []) ∷ (field "setpoint" 1 []) ∷ []) []
spec_of relative_humidity =
    spec "RelativeHumidity" ((field "address" 2 []) ∷ (field "percent" 1 ("RHpercent" ∷ [])) ∷ [])
      []
spec_of humidity_set_max =
    spec "HumiditySetMax" ((field "address" 2 []) ∷ (field "percent" 1 ("percentMax" ∷ [])) ∷ []) []
spec_of humidity_set_min =
    spec "HumiditySetMin" ((field "address" 2 []) ∷ (field "percent" 1 ("percentMin" ∷ [])) ∷ []) []
spec_of fan_percent =
    spec "FanPercent"
      ((field "address" 2 []) ∷ (field "setback" 1 []) ∷ (field "percent" 1 []) ∷ []) []
spec_of taking_address =
    spec "TakingAddress" ((field "old_address" 2 []) ∷ (field "new_address" 2 []) ∷ []) []
spec_of device_inventory = spec "DeviceInventory" ((field "address" 2 []) ∷ []) []
spec_of setback_enable = spec "SetbackEnable" ((field "enable" 1 []) ∷ []) []
spec_of setback_state =
    spec "SetbackState" ((field "address" 2 []) ∷ (field "setback" 1 []) ∷ []) []
spec_of setback_events =
    spec "SetbackEvents" ((field "address" 2 []) ∷ (field "events" 1 []) ∷ []) []
spec_of firmware_revision = spec "FirmwareRevision" ((field "revision" 2 []) ∷ []) []
spec_of protocol_version = spec "ProtocolVersion" ((field "version" 2 []) ∷ []) []
spec_of device_type = spec "DeviceType" ((field "address" 2 []) ∷ (field "type" 4 []) ∷ []) []
spec_of device_version =
    spec "DeviceVersion" ((field "address" 2 []) ∷ (field "j_number" 4 []) ∷ []) []
spec_of date_time =
    spec "DateTime"
      ((field "year" 2 [])
        ∷ (field "month" 1 [])
        ∷ (field "day" 1 [])
        ∷ (field "weekday" 1 [])
        ∷ (field "hour" 1 [])
        ∷ (field "minute" 1 [])
        ∷ [])
      []
