-- ===== src/Models/Device.antt =====
-- Devices in src/tekmar_482/models.py (`DeviceAttributes`, `DiscoveredDevice`) and the table of
-- device types in src/tekmar_482/constants.py.
use tekmar.Prelude.{
  ℕ, ◌/◌, ◌%◌, ◌^◌, String, Bool, true, false, not, ◌&&◌, ◌||◌, Option, none, some, [], ◌∷◌, ◌==◌,
  ltb, if◌then◌else◌,
}
use tekmar.Prelude.Dict.{number_key, Map, lookup}

pub data DeviceKind : Type 0 where
  thermostat setpoint snowmelt : DeviceKind

-- `DeviceFeature`.
pub record DeviceFeature : Type 0 where
  pub model : String
  pub kind : DeviceKind
  pub heat : ℕ
  pub cool : ℕ
  pub fan : ℕ
  pub humidity : ℕ
  pub snow : ℕ
  pub emergency : ℕ

-- `_feature`, by its positional order.
abbrev feature_of : String → DeviceKind → ℕ → ℕ → ℕ → ℕ → ℕ → ℕ → DeviceFeature
feature_of model kind heat cool fan humidity snow emergency = record {
  model = model;
  kind = kind;
  heat = heat;
  cool = cool;
  fan = fan;
  humidity = humidity;
  snow = snow;
  emergency = emergency;
}

-- `DEVICE_FEATURES`.
unfoldable pub device_features : Map ℕ DeviceFeature
device_features =
    (101101, feature_of "161" setpoint 1 0 0 0 0 0)
    ∷ (101102, feature_of "162" setpoint 1 1 0 0 0 0)
    ∷ (102301, feature_of "527" thermostat 1 0 0 0 0 0)
    ∷ (102302, feature_of "528" thermostat 1 0 0 0 0 0)
    ∷ (102303, feature_of "529" thermostat 2 0 0 0 0 0)
    ∷ (102304, feature_of "530" thermostat 1 1 1 0 0 0)
    ∷ (100102, feature_of "537" thermostat 1 0 0 0 0 0)
    ∷ (100103, feature_of "538" thermostat 1 0 0 0 0 0)
    ∷ (100101, feature_of "540" thermostat 1 1 1 0 0 0)
    ∷ (99301, feature_of "541" thermostat 1 0 0 0 0 0)
    ∷ (10599181, feature_of "541" thermostat 1 0 0 0 0 0)
    ∷ (99302, feature_of "542" thermostat 1 0 0 0 0 0)
    ∷ (99401, feature_of "543" thermostat 2 0 0 0 0 0)
    ∷ (99203, feature_of "544" thermostat 1 1 1 0 0 0)
    ∷ (99202, feature_of "545" thermostat 2 1 1 0 0 0)
    ∷ (99201, feature_of "546" thermostat 2 2 2 0 0 0)
    ∷ (107201, feature_of "532" thermostat 1 0 0 0 0 0)
    ∷ (105103, feature_of "552" thermostat 1 0 0 0 0 0)
    ∷ (105102, feature_of "553" thermostat 2 1 1 1 0 0)
    ∷ (105101, feature_of "554" thermostat 1 1 1 0 0 0)
    ∷ (104401, feature_of "557" thermostat 2 2 1 1 0 1)
    ∷ (105801, feature_of "654" snowmelt 0 0 0 0 1 0)
    ∷ (108401, feature_of "670" snowmelt 0 0 0 0 1 0)
    ∷ (108402, feature_of "671" snowmelt 0 0 0 0 1 0)
    ∷ []

-- `DeviceAttributes.supports`, of the bit at an index.
unfoldable pub has_bit : ℕ → ℕ → Bool
has_bit raw index = (raw / 2 ^ index) % 2 == 1

unfoldable pub heat_bit : ℕ → Bool
unfolding has_bit
heat_bit raw = has_bit raw 0

unfoldable pub cool_bit : ℕ → Bool
unfolding has_bit
cool_bit raw = has_bit raw 1

unfoldable pub slab_bits : ℕ → Bool
unfolding has_bit
slab_bits raw = has_bit raw 2 || has_bit raw 8

unfoldable pub fan_bit : ℕ → Bool
unfolding has_bit
fan_bit raw = has_bit raw 3

unfoldable pub humidity_bits : ℕ → Bool
unfolding has_bit
humidity_bits raw = has_bit raw 6 || has_bit raw 5

unfoldable pub setpoint_device_bit : ℕ → Bool
unfolding has_bit
setpoint_device_bit raw = has_bit raw 7

-- `attributes` is the raw bit field.
pub record DiscoveredDevice : Type 0 where
  pub address : ℕ
  pub type_code : Option ℕ
  pub version : Option ℕ
  pub attributes : ℕ
  pub setback_events : Option ℕ

feature_in : Option ℕ → Option DeviceFeature
unfolding lookup device_features
feature_in none = none
feature_in (some code) = lookup code device_features

unfoldable pub feature : DiscoveredDevice → Option DeviceFeature
unfolding feature_in
feature device = feature_in device.type_code

-- `feature is not None and …`.
feature_has : (DeviceFeature → Bool) → Option DeviceFeature → Bool
feature_has test none = false
feature_has test (some f) = test f

abbrev pub is_setpoint_kind : DeviceKind → Bool
is_setpoint_kind setpoint = true
is_setpoint_kind _ = false

unfoldable pub supports_heat_setpoint : DiscoveredDevice → Bool
unfolding heat_bit feature feature_has
supports_heat_setpoint d = heat_bit d.attributes || feature_has (λ f. ltb 0 f.heat) (feature d)

unfoldable pub supports_cool_setpoint : DiscoveredDevice → Bool
unfolding cool_bit feature feature_has
supports_cool_setpoint d = cool_bit d.attributes || feature_has (λ f. ltb 0 f.cool) (feature d)

unfoldable pub supports_slab_setpoint : DiscoveredDevice → Bool
unfolding slab_bits
supports_slab_setpoint d = slab_bits d.attributes

unfoldable pub supports_fan_percent : DiscoveredDevice → Bool
unfolding fan_bit feature feature_has
supports_fan_percent d = fan_bit d.attributes || feature_has (λ f. ltb 0 f.fan) (feature d)

unfoldable pub supports_humidity : DiscoveredDevice → Bool
unfolding humidity_bits feature feature_has
supports_humidity d = humidity_bits d.attributes || feature_has (λ f. ltb 0 f.humidity) (feature d)

unfoldable pub supports_setpoint_device : DiscoveredDevice → Bool
unfolding setpoint_device_bit feature feature_has
supports_setpoint_device d =
    setpoint_device_bit d.attributes || feature_has (λ f. is_setpoint_kind f.kind) (feature d)

kind_in : Option DeviceFeature → DiscoveredDevice → Option DeviceKind
unfolding setpoint_device_bit supports_heat_setpoint supports_cool_setpoint supports_slab_setpoint
    supports_fan_percent supports_humidity
kind_in (some f) d = some f.kind
kind_in none d =
    if setpoint_device_bit d.attributes
    then some setpoint
    else if supports_heat_setpoint d
        || supports_cool_setpoint d
        || supports_slab_setpoint d
        || supports_fan_percent d
        || supports_humidity d
    then some thermostat
    else none

-- The property `kind`.
unfoldable pub device_kind : DiscoveredDevice → Option DeviceKind
unfolding kind_in feature
device_kind d = kind_in (feature d) d

is_thermostat : Option DeviceKind → Bool
is_thermostat (some thermostat) = true
is_thermostat _ = false

unfoldable pub supports_mode_setting : DiscoveredDevice → Bool
unfolding is_thermostat device_kind supports_setpoint_device
supports_mode_setting d = is_thermostat (device_kind d) && not (supports_setpoint_device d)
