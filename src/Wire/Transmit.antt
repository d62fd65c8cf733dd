-- ===== src/Wire/Transmit.antt =====
-- One message through the stack, as src/tekmar_482/transport.py and src/tekmar_482/session.py
-- compose it.
use tekmar.Prelude.{
  ℕ, ◌≤◌, ◌<◌, ◌≡◌, refl, ap, ◌∙◌, arith, List, [], ◌∷◌, ◌++◌, All-append, IsByte, AreBytes, Bytes,
  false, length, length-append,
}
use tekmar.Prelude.Dict.{text_key, Dict}
use tekmar.Exceptions.{ok, ◌>>=◌}
use tekmar.Packet.{Packet, IsWire, new_packet, new_packet-ok, type_trpc}
use tekmar.Tpck.{serialize, TpckParser, reset, feed_many}
use tekmar.Tpck.Decode.{feed_many-serialize}
use tekmar.Trpc.Ints.{pack_int, length-pack_int, pack_int-AreBytes}
use tekmar.Trpc.Spec.{FieldSpec, fields_size, normalize_fields}
use tekmar.Trpc.Spec.Laws.{entries}
use tekmar.Trpc.Methods.{TrpcMethod, null_method, method_id, spec_of}
use tekmar.Trpc.Message.Codec.{wire_value, length-encode_fields}
use tekmar.Trpc.Message.RoundTrip.{encoded, to_bytes-known, from_bytes-encoded}
use tekmar.Trpc.Message.{TrpcPacket, encode_fields, to_bytes, to_packet, from_bytes, from_packet}

-- No body of a known method is longer than seven bytes.
pub fields_size-le : (k : TrpcMethod) → fields_size (spec_of k).fields ≤ 7
unfolding fields_size spec_of
fields_size-le null_method = omega arith
fields_size-le _ = omega arith

encode_fields-AreBytes : (items : List FieldSpec) (d : Dict ℕ) → AreBytes (encode_fields items d)
unfolding encode_fields
encode_fields-AreBytes [] d = tt
encode_fields-AreBytes (item ∷ items) d =
    All-append IsByte _ (encode_fields items d) (pack_int-AreBytes _ item.size)
      (encode_fields-AreBytes items d)

encoded-IsWire :
    (k : TrpcMethod) (m : TrpcPacket) (fields : Dict ℕ)
    → AreBytes m.extra
    → length m.extra ≤ 243
    → IsWire (record { type = type_trpc; payload = encoded k m fields })
encoded-IsWire k m fields b l =
    let service = pack_int m.service_id 1 in
    let method = pack_int m.method_id 4 in
    let body = encode_fields (spec_of k).fields fields in
    record {
      type_byte = omega arith;
      short = omega (
        arith,
        length-append service (method ++ (body ++ m.extra)),
        length-append method (body ++ m.extra),
        length-append body m.extra,
        length-pack_int m.service_id 1,
        length-pack_int m.method_id 4,
        length-encode_fields (spec_of k).fields fields,
        fields_size-le k,
      );
      bytes = All-append IsByte service _ (pack_int-AreBytes m.service_id 1) (
          All-append IsByte method _ (pack_int-AreBytes m.method_id 4)
            (All-append IsByte body m.extra (encode_fields-AreBytes (spec_of k).fields fields) b));
    }

to_packet-ok :
    (m : TrpcPacket) (bytes : Bytes)
    → to_bytes m ≡ ok bytes
    → to_packet m ≡ ok (record { type = type_trpc; payload = bytes })
unfolding to_packet
to_packet-ok m bytes h =
    ap (λ r. r >>= new_packet type_trpc) h ∙ new_packet-ok type_trpc bytes (omega arith)

from_packet-trpc :
    (bytes : Bytes) → from_packet (record { type = type_trpc; payload = bytes }) ≡ from_bytes bytes
unfolding from_packet
from_packet-trpc bytes = refl

-- A message of a known method, with a service id below 256, known field names and at most 243
-- extra bytes, each below 256, is made a packet and a frame; a parser with no escape pending reads the frame as that one packet, and the
-- packet parses as the message with the fields of the method at the values that fit them.
pub transmit :
    (p : TpckParser) (k : TrpcMethod) (m : TrpcPacket) (fields : Dict ℕ)
    → p.escaped ≡ false
    → method_id k ≡ m.method_id
    → m.service_id < 256
    → normalize_fields (spec_of k) m.body ≡ ok fields
    → AreBytes m.extra
    → length m.extra ≤ 243
    → (packet : Packet) × (f : Bytes) × (to_packet m ≡ ok packet)
      × (serialize packet ≡ ok f)
      × (feed_many p f ≡ (reset p, ok (packet ∷ [])))
      × (from_packet packet
          ≡ ok (record m { body = entries (spec_of k).fields (wire_value fields) }))
transmit p k m fields e id s n b l =
    let bytes = encoded k m fields in
    let packet : Packet = record { type = type_trpc; payload = bytes } in
    let (f, serialized, fed) = feed_many-serialize p packet e (encoded-IsWire k m fields b l) in
    (
      packet,
      f,
      to_packet-ok m bytes (to_bytes-known k m fields id n),
      serialized,
      fed,
      from_packet-trpc bytes ∙ from_bytes-encoded k m fields id s,
    )
