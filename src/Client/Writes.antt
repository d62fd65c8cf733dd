-- ===== src/Client/Writes.antt =====
-- The writes of src/tekmar_482/client.py: the setters, their guards and their coalesce keys. The
-- variants in Celsius, which call units.py first, are left out.
pub mod Guards
mod Tests
use tekmar.Prelude.{
  ℕ, ◌-◌, ◌%◌, Bool, true, false, ◌&&◌, ◌||◌, Option, none, some, List, [], ◌∷◌, ◌==◌, leb,
  if◌then◌else◌,
}
use tekmar.Prelude.Int.{ℤ, pos, negsuc}
use tekmar.Trpc.Fields.{
  TrpcPayload, DateTimeFields, payload, coalesce_key, setback_setpoint_fields,
  setback_percent_fields, setback_temperature_fields, mode_setting_fields, date_time_fields,
}
use tekmar.Trpc.Methods.{TrpcMethod, method_id}
use tekmar.Trpc.Message.{TrpcPacket}
use tekmar.Client.Action.{Action, returned, value_error, ◌>>=◌, ◌>>◌, give}
use tekmar.Client.Calls.{
  SessionCalls, matching, update_response, client_coalesced_update,
  client_coalesced_update_response,
}

-- `_validate_percent`: ValueError outside 0 to 100.
unfoldable pub validate_percent : {W : Type 0} → ℤ → Action W (Unit {0})
validate_percent (pos value) w = (w, if leb value 100 then returned tt else value_error)
validate_percent (negsuc value) w = (w, value_error)

-- The values of `DeviceMode`.
unfoldable pub is_device_mode : ℤ → Bool
is_device_mode (pos mode) =
    mode == 0x00 || mode == 0x01 || mode == 0x02 || mode == 0x03 || mode == 0x04 || mode == 0x06
is_device_mode (negsuc mode) = false

-- The number in a field of one byte. A negative one is what `pack_int` makes of it; the guards below
-- let none through.
unfoldable pub byte_field : ℤ → ℕ
byte_field (pos value) = value
byte_field (negsuc value) = 255 - value % 256

-- The key of a payload class that has one; it is `[]` for the others, which no write below uses.
abbrev pub key_in : Option (List ℕ) → List ℕ
key_in none = []
key_in (some key) = key

abbrev pub key_of : TrpcMethod → TrpcPayload → List ℕ
key_of method p = key_in (coalesce_key (method_id method) p)

module _ {W : Type 0} (session : SessionCalls W) where
  -- `_update_setback_payload`, with the address of the payload.
  unfoldable pub update_setback_payload :
      TrpcMethod → TrpcPayload → ℕ → Action W (Option TrpcPacket)
  unfolding update_response
  update_setback_payload method p address =
      update_response session method (matching (some address) (payload p)) (payload p)

  -- `_coalesced_setback_payload`; `set_mode` does the same for its payload.
  unfoldable pub coalesced_setback_payload :
      TrpcMethod → TrpcPayload → ℕ → Bool → Action W (Option TrpcPacket)
  unfolding client_coalesced_update_response client_coalesced_update coalesce_key method_id
  coalesced_setback_payload method p address true =
      client_coalesced_update_response session method (key_of method p)
        (matching (some address) (payload p)) (payload p)
  coalesced_setback_payload method p address false =
      client_coalesced_update session method (key_of method p) (payload p)

  unfoldable pub set_heat_setpoint : ℕ → ℕ → ℕ → Action W (Option TrpcPacket)
  unfolding update_setback_payload
  set_heat_setpoint address setpoint setback =
      update_setback_payload TrpcMethod.heat_setpoint
        (setback_setpoint_fields address setpoint setback) address

  unfoldable pub set_latest_heat_setpoint : Bool → ℕ → ℕ → ℕ → Action W (Option TrpcPacket)
  unfolding coalesced_setback_payload
  set_latest_heat_setpoint confirm address setpoint setback =
      coalesced_setback_payload TrpcMethod.heat_setpoint
        (setback_setpoint_fields address setpoint setback) address confirm

  unfoldable pub set_cool_setpoint : ℕ → ℕ → ℕ → Action W (Option TrpcPacket)
  unfolding update_setback_payload
  set_cool_setpoint address setpoint setback =
      update_setback_payload TrpcMethod.cool_setpoint
        (setback_setpoint_fields address setpoint setback) address

  unfoldable pub set_latest_cool_setpoint : Bool → ℕ → ℕ → ℕ → Action W (Option TrpcPacket)
  unfolding coalesced_setback_payload
  set_latest_cool_setpoint confirm address setpoint setback =
      coalesced_setback_payload TrpcMethod.cool_setpoint
        (setback_setpoint_fields address setpoint setback) address confirm

  unfoldable pub set_slab_setpoint : ℕ → ℕ → ℕ → Action W (Option TrpcPacket)
  unfolding update_setback_payload
  set_slab_setpoint address setpoint setback =
      update_setback_payload TrpcMethod.slab_setpoint
        (setback_setpoint_fields address setpoint setback) address

  unfoldable pub set_latest_slab_setpoint : Bool → ℕ → ℕ → ℕ → Action W (Option TrpcPacket)
  unfolding coalesced_setback_payload
  set_latest_slab_setpoint confirm address setpoint setback =
      coalesced_setback_payload TrpcMethod.slab_setpoint
        (setback_setpoint_fields address setpoint setback) address confirm

  unfoldable pub set_setpoint_device : ℕ → ℕ → ℕ → Action W (Option TrpcPacket)
  unfolding update_setback_payload
  set_setpoint_device address temp setback =
      update_setback_payload TrpcMethod.setpoint_device
        (setback_temperature_fields address temp setback) address

  unfoldable pub set_latest_setpoint_device : Bool → ℕ → ℕ → ℕ → Action W (Option TrpcPacket)
  unfolding coalesced_setback_payload
  set_latest_setpoint_device confirm address temp setback =
      coalesced_setback_payload TrpcMethod.setpoint_device
        (setback_temperature_fields address temp setback) address confirm

  unfoldable pub set_fan_percent : ℕ → ℤ → ℕ → Action W (Option TrpcPacket)
  unfolding validate_percent update_setback_payload byte_field
  set_fan_percent address percent setback = do
    validate_percent percent
    update_setback_payload TrpcMethod.fan_percent
        (setback_percent_fields address (byte_field percent) setback) address

  unfoldable pub set_latest_fan_percent : Bool → ℕ → ℤ → ℕ → Action W (Option TrpcPacket)
  unfolding validate_percent coalesced_setback_payload byte_field
  set_latest_fan_percent confirm address percent setback = do
    validate_percent percent
    coalesced_setback_payload TrpcMethod.fan_percent
        (setback_percent_fields address (byte_field percent) setback) address confirm

  unfoldable pub set_mode : Bool → ℕ → ℤ → Action W (Option TrpcPacket)
  unfolding is_device_mode coalesced_setback_payload byte_field
  set_mode confirm address mode =
      if is_device_mode mode
      then coalesced_setback_payload TrpcMethod.mode_setting
          (mode_setting_fields address (byte_field mode)) address confirm
      else (λ w. (w, value_error))

  -- `set_datetime`, of the fields that `DateTimeFields.from_datetime` copies.
  unfoldable pub set_datetime : DateTimeFields → Action W (Option TrpcPacket)
  unfolding update_response
  set_datetime value =
      let fields = payload (date_time_fields value) in
      update_response session TrpcMethod.date_time (matching none fields) fields
