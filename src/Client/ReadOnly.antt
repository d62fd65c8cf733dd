-- ===== src/Client/ReadOnly.antt =====
-- Discovery and polling only send requests (src/tekmar_482/client.py): the rules for what requests
-- and waits keep.
pub mod Polling
pub mod Discovering
use tekmar.Prelude.{
  ℕ, zero, suc, ◌+◌, ◌≡◌, refl, Bool, true, false, ◌&&◌, ◌||◌, String, Option, none, some, List, [],
  ◌∷◌, ◌==◌, if◌then◌else◌, if_both,
}
use tekmar.Prelude.Dict.{number_key, Map, insert}
use tekmar.Exceptions.{Result, ok, err}
use tekmar.Trpc.Fields.{
  FieldsInput, nothing, mapping, payload, address_fields, address_setback_fields,
  setpoint_group_fields,
}
use tekmar.Trpc.Methods.{TrpcMethod, method_id}
use tekmar.Trpc.Message.{TrpcPacket, require}
use tekmar.Trpc.Match.{TrpcCommand, ResponseMatch, MatchOptions, request_command, for_command}
use tekmar.Models.Setback.{ThaSetback, setback_value, setback_from_value}
use tekmar.Models.Device.{
  DiscoveredDevice, supports_heat_setpoint, supports_cool_setpoint, supports_slab_setpoint,
  supports_fan_percent, supports_humidity, supports_setpoint_device, supports_mode_setting,
}
use tekmar.Models.Runtime.{DeviceSnapshot, GatewayInfo, DiscoveryResult}
use tekmar.State.Apply.{as_bool}
use tekmar.Client.Action.{
  Action, Reply, returned, raised, value_error, os_error, ran_out, then_reply, reply_of, ◌>>=◌,
  give, lift_call, lift_result, when, finally, after_cleanup, for_each,
}
use tekmar.Client.Calls.{
  SessionCalls, matching, client_request, request_response, set_reporting_state,
  request_device_inventory, delay,
}
use tekmar.Client.Discovery.{
  required_of, is_inventory, add_address, get_gateway_info, after_address, after_message,
  collect_addresses, get_inventory_addresses, request_at, get_device_info, device_after_delay,
  discover_body, discover,
}
use tekmar.Client.Poll.{
  Observed, got, observe, request_field, device_field, dump_loop, dump_setpoints, setpoints_if,
  field_if,
}
use tekmar.Client.Snapshot.{
  is_version, has_humidity, dump_device_snapshot, poll_devices, dump_groups, dump_setpoint_groups,
  datetime_of, get_datetime, poll_gateway, poll_runtime, dump_available_info,
}

-- The world after an action has the property if the world before has it.
pub record Keeps {W A : Type 0} (P : W → Type 0) (action : Action W A) : Type 0 where
  pub kept : (w : W) → P w → P (action w).0

module _ {W : Type 0} {A B : Type 0} (P : W → Type 0) where
  pub then_reply-keeps :
      (r : W × Reply A) (next : A → Action W B)
      → P r.0
      → ((a : A) → Keeps P (next a))
      → P (then_reply r next).0
  then_reply-keeps (w, returned a) next p keeps = (keeps a).kept w p
  then_reply-keeps (w, raised e) next p keeps = p
  then_reply-keeps (w, value_error) next p keeps = p
  then_reply-keeps (w, os_error) next p keeps = p
  then_reply-keeps (w, ran_out) next p keeps = p

  pub bind-Keeps :
      (first : Action W A) (next : A → Action W B)
      → Keeps P first
      → ((a : A) → Keeps P (next a))
      → Keeps P (first >>= next)
  bind-Keeps first next keeps then_keeps = record {
    kept = λ w p. then_reply-keeps (first w) next (keeps.kept w p) then_keeps;
  }

  pub after_cleanup-keeps : (r : Reply A) (end : W × Reply B) → P end.0 → P (after_cleanup r end).0
  after_cleanup-keeps r (w, returned a) p = p
  after_cleanup-keeps r (w, raised e) p = p
  after_cleanup-keeps r (w, value_error) p = p
  after_cleanup-keeps r (w, os_error) p = p
  after_cleanup-keeps r (w, ran_out) p = p

  pub finally-Keeps :
      (body : Action W A) (cleanup : Action W B)
      → Keeps P body
      → Keeps P cleanup
      → Keeps P (finally body cleanup)
  finally-Keeps body cleanup keeps cleanup_keeps = record {
    kept = λ w p.
        after_cleanup-keeps (body w).1 (cleanup (body w).0)
          (cleanup_keeps.kept (body w).0 (keeps.kept w p));
  }

module _ {W A : Type 0} (P : W → Type 0) where
  pub give-Keeps : (a : A) → Keeps P (give {W = W} a)
  give-Keeps a = record { kept = λ w p. p }

  pub lift_result-Keeps : (result : Result A) → Keeps P (lift_result {W = W} result)
  lift_result-Keeps result = record { kept = λ w p. p }

module _ {W A B : Type 0} (P : W → Type 0) where
  pub for_each-Keeps :
      (action : A → Action W B) (items : List A)
      → ((a : A) → Keeps P (action a))
      → Keeps P (for_each action items)
  unfolding for_each
  for_each-Keeps action [] keeps = give-Keeps P []
  for_each-Keeps action (a ∷ rest) keeps =
      bind-Keeps P (action a) (λ b. for_each action rest >>= λ bs. give (b ∷ bs)) (keeps a)
        (λ b.
          bind-Keeps P (for_each action rest) (λ bs. give (b ∷ bs))
            (for_each-Keeps action rest keeps) (λ bs. give-Keeps P (b ∷ bs)))

module _ {W A : Type 0} (P : W → Type 0) where
  pub when-Keeps :
      (wanted : Bool) (action : Action W A) → Keeps P action → Keeps P (when wanted action)
  when-Keeps true action keeps = record {
    kept = λ w p.
        then_reply-keeps P (action w) (λ a. give (some a)) (keeps.kept w p)
          (λ a. give-Keeps P (some a));
  }
  when-Keeps false action keeps = record { kept = λ w p. p }

  pub unwanted-Keeps : (action : Action W A) → Keeps P (when false action)
  unwanted-Keeps action = record { kept = λ w p. p }

-- What requests, reads and pauses of a session keep.
pub record RequestsKeep {W : Type 0} (session : SessionCalls W) (P : W → Type 0) : Type 0 where
  pub send_keeps :
      (method : ℕ) (fields : FieldsInput) (w : W)
      → P w
      → P (session.send (request_command method fields) w).0
  pub respond_keeps :
      (method : ℕ) (fields : FieldsInput) (match : ResponseMatch) (w : W)
      → P w
      → P (session.respond false (request_command method fields) match w).0
  pub next_keeps :
      (predicate : TrpcPacket → Bool) (w : W) → P w → P (session.next_matching predicate w).0
  pub pause_keeps : (w : W) → P w → P (session.pause w)

module _ {W : Type 0} (session : SessionCalls W) (P : W → Type 0)
    (keep : RequestsKeep session P) where
  pub request_response-Keeps :
      (method : TrpcMethod) (options : MatchOptions) (fields : FieldsInput)
      → Keeps P (request_response session method options fields)
  unfolding request_response
  request_response-Keeps method options fields = record {
    kept = λ w p.
        keep.respond_keeps (method_id method) fields
          (for_command (request_command (method_id method) fields) options) w p;
  }

  pub delay-Keeps : (delayed : Bool) → Keeps P (delay session delayed)
  unfolding delay
  delay-Keeps delayed = record {
    kept = λ w p. if_both P delayed (session.pause w) w (keep.pause_keeps w p) p;
  }

  pub required_of-Keeps :
      (found : Option TrpcPacket) (field : String) → Keeps P (required_of {W = W} found field)
  required_of-Keeps none field = give-Keeps P none
  required_of-Keeps (some m) field = search (bind-Keeps, lift_result-Keeps, give-Keeps)
