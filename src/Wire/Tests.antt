-- ===== src/Wire/Tests.antt =====
-- The composed stack at one message, read by a parser that is in the middle of a frame.
use tekmar.Prelude.{◌≡◌, refl, true, [], ◌∷◌, Bytes, arith}
use tekmar.Prelude.Dict.{text_key, lookup, insert}
use tekmar.Exceptions.{ok}
use tekmar.Packet.{Packet}
use tekmar.Tpck.{serialize, TpckParser, new_parser, reset, feed_many, in_data}
use tekmar.Trpc.Spec.{normalize_fields}
use tekmar.Trpc.Spec.Laws.{entries}
use tekmar.Trpc.Methods.{heat_setpoint, method_id, spec_of}
use tekmar.Trpc.Message.{TrpcPacket, to_packet, from_packet}
use tekmar.Trpc.Message.Codec.{wire_value}
use tekmar.Wire.Transmit.{transmit}

abbrev heat_update : TrpcPacket
heat_update = record {
  service_id = 0;
  method_id = 0x13F;
  body = ("address", 1202) ∷ ("setback", 7) ∷ ("setpoint", 40) ∷ [];
  extra = [];
}

abbrev busy : TpckParser
busy = record (new_parser true) { state = in_data; length_byte = 4; payload = 1 ∷ [] }

normalize-heat_update :
    normalize_fields (spec_of heat_setpoint) heat_update.body ≡ ok heat_update.body
unfolding normalize_fields spec_of lookup insert
normalize-heat_update = refl

method_id-heat_setpoint : method_id heat_setpoint ≡ 0x13F
unfolding method_id
method_id-heat_setpoint = refl

transmit_example :
    (packet : Packet) × (f : Bytes) × (to_packet heat_update ≡ ok packet)
    × (serialize packet ≡ ok f)
    × (feed_many busy f ≡ (reset busy, ok (packet ∷ [])))
    × (from_packet packet
        ≡ ok (record heat_update {
          body = entries (spec_of heat_setpoint).fields (wire_value heat_update.body);
        }))
transmit_example =
    transmit busy heat_setpoint heat_update heat_update.body refl method_id-heat_setpoint
      (omega arith) normalize-heat_update tt (omega arith)
