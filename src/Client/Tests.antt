-- ===== src/Client/Tests.antt =====
-- The client model (src/tekmar_482/client.py) with a session that hands out an inbox of messages.
use tekmar.Prelude.{
  ℕ, ◌≡◌, refl, Bool, true, false, ◌||◌, inr, Option, none, some, List, [], ◌∷◌, ◌==◌,
  if◌then◌else◌, arith,
}
use tekmar.Prelude.Dict.{text_key, lookup, insert}
use tekmar.Exceptions.{Result, ok}
use tekmar.Trpc.Fields.{FieldsInput, freeze_fields}
use tekmar.Trpc.Methods.{heat_setpoint}
use tekmar.Trpc.Lookup.{method_spec}
use tekmar.Trpc.Spec.{field_aliases}
use tekmar.Trpc.Message.{TrpcPacket, require, get}
use tekmar.Trpc.Match.{TrpcCommand, request_command, matches, for_command}
use tekmar.Client.Action.{returned}
use tekmar.Client.Calls.{SessionCalls, request_response, request_device_inventory}
use tekmar.Client.Discovery.{is_inventory, get_inventory_addresses}
use tekmar.Client.Discovery.Inventory.{
  Inventory, unique, before_end, without, get_inventory_addresses-unique,
}
use tekmar.Client.ReadOnly.{RequestsKeep}
use tekmar.Client.ReadOnly.Discovering.{dump_available_info-keeps}
use tekmar.Client.Snapshot.{poll_runtime, dump_available_info}
use tekmar.Client.Discovery.{discover}
use tekmar.Models.Runtime.{DiscoveryResult}
use tekmar.Models.Setback.{away}
use tekmar.Models.Setpoints.{SetpointValues, current}
use tekmar.Client.Poll.{dump_setpoints}
use tekmar.Client.Poll.Current.{dump_setpoints-current, ask_current}

-- The messages to come, and whether an update was sent.
record Bench : Type 0 where
  inbox : List TrpcPacket
  written : Bool

take_if : (TrpcPacket → Bool) → Bench → List TrpcPacket → Bench × Result (Option TrpcPacket)
take_if passes bench [] = (bench, ok none)
take_if passes bench (m ∷ rest) =
    (record bench { inbox = rest }, if passes m then ok (some m) else ok none)

abbrev note : TrpcCommand → Bench → Bench
note command bench = record bench { written = bench.written || command.service == 0 }

answer : TrpcPacket
answer = record { service_id = 2; method_id = 0; body = []; extra = [] }

abbrev bench_session : SessionCalls Bench
bench_session = record {
  send = λ command w. (note command w, ok answer);
  respond = λ publish command match w. take_if (matches match) (note command w) w.inbox;
  coalesce = λ command key w. (note command w, ok none);
  coalesce_respond = λ command key match w. take_if (matches match) (note command w) w.inbox;
  next_matching = λ predicate w. take_if predicate w w.inbox;
  expired = λ w. false;
  pause = λ w. w;
}

reading : ℕ → TrpcPacket
reading address = record {
  service_id = 4;
  method_id = 0x167;
  body = ("address", address) ∷ [];
  extra = [];
}

abbrev announced : Bench
announced = record {
  inbox = reading 5 ∷ reading 7 ∷ reading 5 ∷ reading 0 ∷ reading 9 ∷ [];
  written = false;
}

announced-Inventory : Inventory bench_session announced (5 ∷ 7 ∷ 5 ∷ 0 ∷ 9 ∷ [])
unfolding Inventory is_inventory require take_if reading get lookup insert method_spec field_aliases
announced-Inventory = (
  refl,
  reading 5,
  refl,
  refl,
  (
    refl,
    reading 7,
    refl,
    refl,
    (
      refl,
      reading 5,
      refl,
      refl,
      (refl, reading 0, refl, refl, (refl, reading 9, refl, refl, inr (refl, refl))),
    ),
  ),
)

get_inventory_addresses-unique_example :
    (get_inventory_addresses bench_session 6 1 announced).1 ≡ returned (5 ∷ 7 ∷ [])
unfolding unique before_end answer without request_device_inventory
get_inventory_addresses-unique_example =
    get_inventory_addresses-unique bench_session 6 1 (5 ∷ 7 ∷ 5 ∷ 0 ∷ 9 ∷ []) announced announced
      answer refl announced-Inventory (omega arith)

abbrev IsUnwritten : Bench → Type 0
IsUnwritten bench = bench.written ≡ false

taken-IsUnwritten :
    (passes : TrpcPacket → Bool) (bench : Bench) (inbox : List TrpcPacket)
    → IsUnwritten bench
    → IsUnwritten (take_if passes bench inbox).0
unfolding take_if
taken-IsUnwritten passes bench [] h = h
taken-IsUnwritten passes bench (m ∷ rest) h = h

request-IsUnwritten :
    (method : ℕ) (fields : FieldsInput) (bench : Bench)
    → IsUnwritten bench
    → IsUnwritten (note (request_command method fields) bench)
unfolding request_command
request-IsUnwritten method fields bench h = ground (arith, h)

abbrev requests_keep : RequestsKeep bench_session IsUnwritten
requests_keep = record {
  send_keeps = request-IsUnwritten;
  respond_keeps = λ method fields match w p.
      taken-IsUnwritten (matches match) (note (request_command method fields) w) w.inbox
        (request-IsUnwritten method fields w p);
  next_keeps = λ predicate w. taken-IsUnwritten predicate w w.inbox;
  pause_keeps = λ w p. p;
}

abbrev found : DiscoveryResult
found = record {
  gateway = record { firmware_revision = none; protocol_version = some 2 };
  devices = [];
}

dump_available_info-keeps_example :
    ((discover bench_session 6 false none true announced).0.written ≡ false)
    × ((poll_runtime bench_session true true true false found announced).0.written ≡ false)
    × ((dump_available_info bench_session 6 true true true announced).0.written ≡ false)
dump_available_info-keeps_example =
    dump_available_info-keeps bench_session IsUnwritten requests_keep 6 true true true false found
      announced refl

-- The answer reports the setback with the value 0.
abbrev heat_answer : TrpcPacket
heat_answer = record {
  service_id = 4;
  method_id = 0x13F;
  body = ("address", 5) ∷ ("setback", 0) ∷ ("setpoint", 40) ∷ [];
  extra = [];
}

abbrev one_answer : Bench
one_answer = record { inbox = heat_answer ∷ []; written = false }

one_answer-answered :
    ask_current bench_session heat_setpoint 5 one_answer
    ≡ (record { inbox = []; written = false }, returned (some heat_answer))
unfolding request_response request_command take_if matches for_command get lookup insert method_spec
    field_aliases freeze_fields
one_answer-answered = refl

dump_setpoints-current_example :
    (s : SetpointValues) × (dump_setpoints bench_session true false
        (some away)
        heat_setpoint
        "setpoint"
        5
        one_answer
      ≡ (record { inbox = []; written = false }, returned s))
    × (current s ≡ get heat_answer "setpoint")
dump_setpoints-current_example =
    dump_setpoints-current bench_session true (some away) heat_setpoint "setpoint" 5 one_answer
      (record { inbox = []; written = false }) heat_answer one_answer-answered
