-- ===== src/Trpc/Fields.antt =====
-- The payload classes of src/tekmar_482/trpc.py, one constructor for each, and `freeze_fields`.
-- Field values are numbers at least 0; a `bool` is sent as 0 or 1.
use tekmar.Prelude.{ℕ, Bool, true, false, Option, none, some, List, [], ◌∷◌}
use tekmar.Prelude.Dict.{text_key, Dict}

abbrev pub int_of_bool : Bool → ℕ
int_of_bool true = 1
int_of_bool false = 0

pub record DateTimeFields : Type 0 where
  pub year : ℕ
  pub month : ℕ
  pub day : ℕ
  pub weekday : ℕ
  pub hour : ℕ
  pub minute : ℕ

-- The arguments stand in the order of the dataclass fields.
pub data TrpcPayload : Type 0 where
  address_fields : ℕ → TrpcPayload
  address_setback_fields : ℕ → ℕ → TrpcPayload
  reporting_state_fields : Bool → TrpcPayload
  enable_fields : Bool → TrpcPayload
  setpoint_group_fields : ℕ → Option Bool → TrpcPayload
  date_time_fields : DateTimeFields → TrpcPayload
  setback_setpoint_fields : ℕ → ℕ → ℕ → TrpcPayload
  setback_percent_fields : ℕ → ℕ → ℕ → TrpcPayload
  setback_temperature_fields : ℕ → ℕ → ℕ → TrpcPayload
  mode_setting_fields : ℕ → ℕ → TrpcPayload

group_enable : Option Bool → Dict ℕ
group_enable none = []
group_enable (some enabled) = ("enable", int_of_bool enabled) ∷ []

-- The method `as_fields` of each class.
unfoldable pub as_fields : TrpcPayload → Dict ℕ
unfolding group_enable
as_fields (address_fields address) = ("address", address) ∷ []
as_fields (address_setback_fields address setback) =
    ("address", address) ∷ ("setback", setback) ∷ []
as_fields (reporting_state_fields enabled) = ("state", int_of_bool enabled) ∷ []
as_fields (enable_fields enabled) = ("enable", int_of_bool enabled) ∷ []
as_fields (setpoint_group_fields group_id enabled) = ("group_id", group_id) ∷ group_enable enabled
as_fields (date_time_fields t) =
    ("year", t.year)
    ∷ ("month", t.month)
    ∷ ("day", t.day)
    ∷ ("weekday", t.weekday)
    ∷ ("hour", t.hour)
    ∷ ("minute", t.minute)
    ∷ []
as_fields (setback_setpoint_fields address setpoint setback) =
    ("address", address) ∷ ("setback", setback) ∷ ("setpoint", setpoint) ∷ []
as_fields (setback_percent_fields address percent setback) =
    ("address", address) ∷ ("setback", setback) ∷ ("percent", percent) ∷ []
as_fields (setback_temperature_fields address temp setback) =
    ("address", address) ∷ ("setback", setback) ∷ ("temp", temp) ∷ []
as_fields (mode_setting_fields address mode) = ("address", address) ∷ ("mode", mode) ∷ []

-- `coalesce_key` of the mixins `AddressPayload` and `AddressSetbackPayload`; the other classes
-- have none.
unfoldable pub coalesce_key : ℕ → TrpcPayload → Option (List ℕ)
coalesce_key method (address_fields address) = some (method ∷ address ∷ [])
coalesce_key method (address_setback_fields address setback) =
    some (method ∷ address ∷ setback ∷ [])
coalesce_key method (setback_setpoint_fields address setpoint setback) =
    some (method ∷ address ∷ setback ∷ [])
coalesce_key method (setback_percent_fields address percent setback) =
    some (method ∷ address ∷ setback ∷ [])
coalesce_key method (setback_temperature_fields address temp setback) =
    some (method ∷ address ∷ setback ∷ [])
coalesce_key method (mode_setting_fields address mode) = some (method ∷ address ∷ [])
coalesce_key method _ = none

-- `match_fields` of `AddressSetbackPayload` and `SetpointGroupFields`; the others have none.
unfoldable pub match_fields : TrpcPayload → Option (Dict ℕ)
match_fields (address_setback_fields address setback) = some (("setback", setback) ∷ [])
match_fields (setpoint_group_fields group_id enabled) = some (("group_id", group_id) ∷ [])
match_fields (setback_setpoint_fields address setpoint setback) = some (("setback", setback) ∷ [])
match_fields (setback_percent_fields address percent setback) = some (("setback", setback) ∷ [])
match_fields (setback_temperature_fields address temp setback) = some (("setback", setback) ∷ [])
match_fields _ = none

-- `TrpcFieldsInput | None`.
pub data FieldsInput : Type 0 where
  nothing : FieldsInput
  mapping : Dict ℕ → FieldsInput
  payload : TrpcPayload → FieldsInput

-- The frozen copy holds the same items.
unfoldable pub freeze_fields : FieldsInput → Dict ℕ
unfolding as_fields
freeze_fields nothing = []
freeze_fields (mapping fields) = fields
freeze_fields (payload p) = as_fields p
