-- ===== src/Client/Calls.antt =====
-- The calls of the session, as an interface, and the methods of src/tekmar_482/client.py that only
-- build a command and a match for them.
use tekmar.Prelude.{ℕ, Bool, true, false, Option, none, some, List, if◌then◌else◌}
use tekmar.Exceptions.{Result}
use tekmar.Trpc.Fields.{
  FieldsInput, nothing, payload, address_fields, reporting_state_fields, setpoint_group_fields,
}
use tekmar.Trpc.Methods.{TrpcMethod, method_id}
use tekmar.Trpc.Message.{TrpcPacket}
use tekmar.Trpc.Match.{
  TrpcCommand, ResponseMatch, MatchOptions, request_command, update_command, for_command,
}
use tekmar.Client.Action.{Action, returned, lift_call}

-- Timeouts are read by the event loop only: a call may answer None at any time. `expired` reads the
-- clock for a deadline, and `pause` is `asyncio.sleep`.
pub record SessionCalls (W : Type 0) : Type 0 where
  pub send : TrpcCommand → W → W × Result TrpcPacket
  pub respond : Bool → TrpcCommand → ResponseMatch → W → W × Result (Option TrpcPacket)
  pub coalesce : TrpcCommand → List ℕ → W → W × Result (Option TrpcPacket)
  pub coalesce_respond : TrpcCommand → List ℕ → ResponseMatch → W → W × Result (Option TrpcPacket)
  pub next_matching : (TrpcPacket → Bool) → W → W × Result (Option TrpcPacket)
  pub expired : W → Bool
  pub pause : W → W

-- The keyword arguments of a match.
abbrev pub matching : Option ℕ → FieldsInput → MatchOptions
matching address fields = record {
  response_method = none;
  response_services = none;
  address = address;
  fields = fields;
}

module _ {W : Type 0} (session : SessionCalls W) where
  unfoldable pub client_request : TrpcMethod → FieldsInput → Action W TrpcPacket
  unfolding request_command method_id
  client_request method fields =
      lift_call (session.send (request_command (method_id method) fields))

  unfoldable pub client_update : TrpcMethod → FieldsInput → Action W TrpcPacket
  unfolding update_command method_id
  client_update method fields = lift_call (session.send (update_command (method_id method) fields))

  unfoldable pub request_response :
      TrpcMethod → MatchOptions → FieldsInput → Action W (Option TrpcPacket)
  unfolding request_command for_command method_id
  request_response method options fields =
      let command = request_command (method_id method) fields in
      lift_call (session.respond false command (for_command command options))

  unfoldable pub update_response :
      TrpcMethod → MatchOptions → FieldsInput → Action W (Option TrpcPacket)
  unfolding update_command for_command method_id
  update_response method options fields =
      let command = update_command (method_id method) fields in
      lift_call (session.respond true command (for_command command options))

  unfoldable pub client_coalesced_update :
      TrpcMethod → List ℕ → FieldsInput → Action W (Option TrpcPacket)
  unfolding update_command method_id
  client_coalesced_update method key fields =
      lift_call (session.coalesce (update_command (method_id method) fields) key)

  unfoldable pub client_coalesced_update_response :
      TrpcMethod → List ℕ → MatchOptions → FieldsInput → Action W (Option TrpcPacket)
  unfolding update_command for_command method_id
  client_coalesced_update_response method key options fields =
      let command = update_command (method_id method) fields in
      lift_call (session.coalesce_respond command key (for_command command options))

  unfoldable pub set_reporting_state : Bool → Action W (Option TrpcPacket)
  unfolding update_response
  set_reporting_state enabled =
      let fields = payload (reporting_state_fields enabled) in
      update_response TrpcMethod.reporting_state (matching none fields) fields

  unfoldable pub request_device_inventory : ℕ → Action W TrpcPacket
  unfolding client_request
  request_device_inventory address =
      client_request TrpcMethod.device_inventory (payload (address_fields address))

  unfoldable pub request_firmware_revision : Action W TrpcPacket
  unfolding client_request
  request_firmware_revision = client_request TrpcMethod.firmware_revision nothing

  unfoldable pub request_protocol_version : Action W TrpcPacket
  unfolding client_request
  request_protocol_version = client_request TrpcMethod.protocol_version nothing

  unfoldable pub request_outdoor_temperature : Action W TrpcPacket
  unfolding client_request
  request_outdoor_temperature = client_request TrpcMethod.outdoor_temp nothing

  unfoldable pub request_setpoint_group : ℕ → Action W TrpcPacket
  unfolding client_request
  request_setpoint_group group_id =
      client_request TrpcMethod.setpoint_group_enable
        (payload (setpoint_group_fields group_id none))

  -- `set_setpoint_group`.
  unfoldable pub set_setpoint_group : ℕ → Bool → Action W (Option TrpcPacket)
  unfolding update_response
  set_setpoint_group group_id enabled =
      let fields = payload (setpoint_group_fields group_id (some enabled)) in
      update_response TrpcMethod.setpoint_group_enable (matching none fields) fields

  -- The closures `delay` of the polls: a write delay of at most 0 does not pause.
  unfoldable pub delay : Bool → Action W (Unit {0})
  delay positive w = (if positive then session.pause w else w, returned tt)
