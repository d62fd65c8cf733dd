-- ===== src/Simulator/Tests.antt =====
-- Replays of src/tekmar_482/simulator.py at a script of one step.
use tekmar.Prelude.{◌≡◌, ◌↔◌, refl, true, false, none, List, [], ◌∷◌}
use tekmar.Prelude.Dict.{lookup, insert}
use tekmar.Packet.{Packet, new_packet}
use tekmar.Trpc.Message.{TrpcPacket, from_bytes, to_bytes, encode_fields}
use tekmar.Trpc.Lookup.{method_spec}
use tekmar.Trpc.Spec.{normalize_fields}
use tekmar.Trpc.Ints.{pack_int}
use tekmar.Simulator.{TraceStep, TraceReplayTransport, new_replay, write_replay}
use tekmar.Simulator.Replay.{write_all}
use tekmar.Simulator.Replay.Accepting.{Replays, write_all_iff}

-- Request OutdoorTemp, and the answer.
abbrev asked : TrpcPacket
asked = record { service_id = 1; method_id = 0x117; body = []; extra = [] }

abbrev answered : TrpcPacket
answered = record { service_id = 4; method_id = 0x117; body = ("temp", 70) ∷ []; extra = [] }

abbrev asked_packet : Packet
asked_packet = record { type = 6; payload = 1 ∷ 0x17 ∷ 1 ∷ 0 ∷ 0 ∷ 0 ∷ 0 ∷ [] }

abbrev script : List TraceStep
script = record { sent = asked; received = answered ∷ [] } ∷ []

abbrev replayed_script : TraceReplayTransport
replayed_script = record {
  steps = [];
  written = asked_packet ∷ [];
  packets = record { type = 6; payload = 4 ∷ 0x17 ∷ 1 ∷ 0 ∷ 0 ∷ 70 ∷ 0 ∷ [] } ∷ [];
  packet_event = true;
  is_replay_open = false;
}

write_all-script : write_all (asked_packet ∷ []) (new_replay script) ≡ (replayed_script, none)
unfolding write_all write_replay new_replay from_bytes to_bytes method_spec normalize_fields
    new_packet pack_int encode_fields lookup insert
write_all-script = refl

write_all_iff_example :
    (write_all (asked_packet ∷ []) (new_replay script) ≡ (replayed_script, none))
    ↔ Replays (asked_packet ∷ []) (new_replay script) replayed_script
write_all_iff_example = write_all_iff (asked_packet ∷ []) (new_replay script) replayed_script
