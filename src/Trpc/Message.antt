-- ===== src/Trpc/Message.antt =====
-- `TrpcPacket` of src/tekmar_482/trpc.py: messages, their bytes, and their fields.
pub mod Codec
pub mod RoundTrip
pub mod Reprint
pub mod Access
use mathlib.Core.Option
use tekmar.Prelude.{
  ℕ, ◌+◌, ◌-◌, String, Bool, Option, none, some, List, [], ◌∷◌, ◌++◌, Bytes, length, take, drop,
  get_or, replicate, ltb, ◌==◌, if◌then◌else◌,
}
use tekmar.Prelude.Dict.{text_key, Dict, lookup, insert}
use tekmar.Exceptions.{Result, ok, err, protocol_error, unknown_field, ◌>>=◌}
use tekmar.Packet.{Packet, new_packet, type_trpc}
use tekmar.Trpc.Ints.{pack_int, unpack_int}
use tekmar.Trpc.Spec.{FieldSpec, MethodSpec, size, field_aliases, normalize_fields}
use tekmar.Trpc.Methods.{TrpcService, TrpcMethod}
use tekmar.Trpc.Lookup.{method_spec, method_of_id, service_of_id}
use tekmar.Trpc.Fields.{FieldsInput, freeze_fields}

abbrev pub header_size : ℕ
header_size = 5

pub record TrpcPacket : Type 0 where
  pub service_id : ℕ
  pub method_id : ℕ
  pub body : Dict ℕ
  pub extra : Bytes

-- `_normalize_fields`, by the method's spec.
unfoldable pub normalize_in : Option MethodSpec → Dict ℕ → Result (Dict ℕ)
normalize_in none fields = ok fields
normalize_in (some spec) fields = normalize_fields spec fields

-- `TrpcPacket.create`, by numeric ids.
unfoldable pub create : ℕ → ℕ → FieldsInput → Result TrpcPacket
unfolding normalize_in
create service method fields = do
  body ← normalize_in (method_spec method) (freeze_fields fields)
  ok (record { service_id = service; method_id = method; body = body; extra = [] })

unfoldable pub service : TrpcPacket → Option TrpcService
service m = service_of_id m.service_id

unfoldable pub method : TrpcPacket → Option TrpcMethod
method m = method_of_id m.method_id

unfoldable pub get_default : Dict ℕ → String → ℕ
get_default fields name = Option.get_or (lookup name fields) 0

-- The loop over `spec.fields` in `to_bytes`.
unfoldable pub encode_fields : List FieldSpec → Dict ℕ → Bytes
unfolding get_default
encode_fields [] normalized = []
encode_fields (item ∷ items) normalized =
    pack_int (get_default normalized item.name) item.size ++ encode_fields items normalized

unfoldable pub encode_body : Option MethodSpec → Dict ℕ → Bytes → Result Bytes
encode_body none body extra = ok extra
encode_body (some spec) body extra = do
  normalized ← normalize_fields spec body
  ok (encode_fields spec.fields normalized ++ extra)

unfoldable pub to_bytes : TrpcPacket → Result Bytes
unfolding encode_body
to_bytes m = do
  body ← encode_body (method_spec m.method_id) m.body m.extra
  ok (pack_int m.service_id 1 ++ (pack_int m.method_id 4 ++ body))

unfoldable pub to_packet : TrpcPacket → Result Packet
to_packet m = do data_bytes ← to_bytes m; new_packet type_trpc data_bytes

-- `bytes.ljust(size, b"\x00")`.
unfoldable pub ljust : Bytes → ℕ → Bytes
ljust bytes size = bytes ++ replicate (size - length bytes) 0

abbrev pub slice : ℕ → ℕ → Bytes → Bytes
slice start stop bytes = take (stop - start) (drop start bytes)

-- The loop over `spec.fields` in `from_bytes`.
unfoldable pub decode_fields : List FieldSpec → ℕ → Bytes → Dict ℕ → Dict ℕ
decode_fields [] offset padded body = body
decode_fields (item ∷ items) offset padded body =
    let next_offset = offset + item.size in
    decode_fields items next_offset padded
      (insert item.name (unpack_int (slice offset next_offset padded)) body)

unfoldable pub decode_body : Option MethodSpec → ℕ → ℕ → Bytes → TrpcPacket
unfolding ljust
decode_body none service method body_data = record {
  service_id = service;
  method_id = method;
  body = [];
  extra = body_data;
}
decode_body (some spec) service method body_data = record {
  service_id = service;
  method_id = method;
  body = decode_fields spec.fields 0 (ljust (take (size spec) body_data) (size spec)) [];
  extra = drop (size spec) body_data;
}

-- The fields are read with the method and the service of the header.
unfoldable pub from_bytes : Bytes → Result TrpcPacket
unfolding decode_body
from_bytes bytes =
    if ltb (length bytes) header_size
    then err protocol_error
    else (let method = unpack_int (slice 1 header_size bytes) in
        ok (decode_body (method_spec method) (get_or bytes 0 0) method (drop header_size bytes)))

unfoldable pub from_packet : Packet → Result TrpcPacket
from_packet packet =
    if packet.type == type_trpc then from_bytes packet.payload else err protocol_error

canonical_in : Option MethodSpec → String → String
canonical_in none field = field
canonical_in (some spec) field = Option.get_or (lookup field (field_aliases spec)) field

-- `get(field)` with no default.
unfoldable pub get : TrpcPacket → String → Option ℕ
unfolding canonical_in
get m field = lookup (canonical_in (method_spec m.method_id) field) m.body

required : Option ℕ → Result ℕ
required none = err unknown_field
required (some value) = ok value

unfoldable pub require : TrpcPacket → String → Result ℕ
unfolding required
require m field = required (get m field)
