-- ===== src/Trpc/Tests.antt =====
-- The tRPC codec of src/tekmar_482/trpc.py on the inputs of tests/test_trpc.py and on others, and
-- the theorems at such inputs.
use tekmar.Prelude.{
  ℕ, ◌≡◌, ◌≢◌, ◌↔◌, ◌%◌, ◌^◌, ◌*◌, refl, none, some, [], ◌∷◌, ◌++◌, Bytes, arith, length, take,
  drop, true, ◌⊎◌,
}
use tekmar.Prelude.Dict.{text_key, Dict, lookup, insert}
use tekmar.Exceptions.{ok, err, unknown_field}
use tekmar.Trpc.Ints.{pack_int, unpack_int, unpack_int-pack_int, pack_int-unpack_int}
use tekmar.Trpc.Spec.{fields_size, field_aliases, normalize_fields}
use tekmar.Trpc.Spec.Laws.{entries}
use tekmar.Trpc.Spec.Normalize.{normalize_fields_cases, stray_keys, last_given}
use tekmar.Trpc.Methods.{method_id, spec_of, setpoint_group_enable, outdoor_temp}
use tekmar.Trpc.Lookup.{method_of_id, method_from_name, method_spec}
use tekmar.Trpc.Lookup.Names.{IsNameOf, method_from_name_iff}
use tekmar.Trpc.Fields.{mapping, freeze_fields}
use tekmar.Trpc.Message.{
  encode_fields, decode_fields, TrpcPacket, create, to_bytes, from_bytes, get,
}
use tekmar.Trpc.Message.Codec.{wire_value}
use tekmar.Trpc.Message.RoundTrip.{from_bytes-to_bytes}
use tekmar.Trpc.Message.Reprint.{filled, to_bytes-from_bytes}
use tekmar.Trpc.Message.Access.{get-create}
use tekmar.Trpc.Match.{ResponseMatch, matches}
use tekmar.Trpc.Match.Laws.{Matches, matches_iff}

-- A Request SetpointGroupEnable by the aliases of its fields.
abbrev group_fields : Dict ℕ
group_fields = ("IDnumber", 2) ∷ ("Enable", 257) ∷ []

abbrev group : TrpcPacket
group = record {
  service_id = 1;
  method_id = 0x13D;
  body = ("group_id", 2) ∷ ("enable", 257) ∷ [];
  extra = 9 ∷ [];
}

create-group : create 1 0x13D (mapping group_fields) ≡ ok (record group { extra = [] })
unfolding create method_spec normalize_fields field_aliases freeze_fields lookup insert
create-group = refl

normalize-group : normalize_fields (spec_of setpoint_group_enable) group.body ≡ ok group.body
unfolding normalize_fields spec_of lookup insert
normalize-group = refl

to_bytes-group : to_bytes group ≡ ok (1 ∷ 0x3D ∷ 1 ∷ 0 ∷ 0 ∷ 2 ∷ 1 ∷ 9 ∷ [])
unfolding to_bytes method_spec normalize_fields pack_int lookup insert encode_fields
to_bytes-group = refl

unpack_int-pack_int_example : unpack_int (pack_int 70000 2) ≡ 70000 % 2 ^ (2 * 8)
unpack_int-pack_int_example = unpack_int-pack_int 70000 2

pack_int-unpack_int_example :
    pack_int (unpack_int (0x3D ∷ 1 ∷ [])) (length {A = ℕ} (0x3D ∷ 1 ∷ [])) ≡ 0x3D ∷ 1 ∷ []
pack_int-unpack_int_example = pack_int-unpack_int (0x3D ∷ 1 ∷ []) (omega arith)

method_from_name_iff_example :
    (method_from_name "OutdoorTemperature" ≡ ok outdoor_temp)
    ↔ IsNameOf outdoor_temp "OutdoorTemperature"
method_from_name_iff_example = method_from_name_iff outdoor_temp "OutdoorTemperature"

-- An alias and a name, and a key that is neither.
abbrev stray_fields : Dict ℕ
stray_fields = ("Enable", 1) ∷ ("temp", 3) ∷ ("group_id", 2) ∷ []

stray_keys-group : stray_keys (spec_of setpoint_group_enable).fields stray_fields ≡ "temp" ∷ []
unfolding stray_keys spec_of
stray_keys-group = refl

normalize_fields_cases_example :
    ((d : Dict ℕ) × (normalize_fields (spec_of setpoint_group_enable) group_fields ≡ ok d)
      × (stray_keys (spec_of setpoint_group_enable).fields group_fields ≡ []))
    ⊎ ((normalize_fields (spec_of setpoint_group_enable) group_fields ≡ err unknown_field)
        × (stray_keys (spec_of setpoint_group_enable).fields group_fields ≢ []))
normalize_fields_cases_example = normalize_fields_cases (spec_of setpoint_group_enable) group_fields

method_id-group : method_id setpoint_group_enable ≡ 0x13D
unfolding method_id
method_id-group = refl

from_bytes-to_bytes_example :
    (bytes : Bytes) × (to_bytes group ≡ ok bytes)
    × (from_bytes bytes
        ≡ ok (record group {
          body = entries (spec_of setpoint_group_enable).fields (wire_value group.body);
        }))
from_bytes-to_bytes_example =
    from_bytes-to_bytes setpoint_group_enable group group.body method_id-group (omega arith)
      normalize-group

abbrev unknown : TrpcPacket
unknown = record { service_id = 2; method_id = 0x1234; body = ("temp", 3) ∷ []; extra = 7 ∷ 8 ∷ [] }

method_of_id-unknown : method_of_id 0x1234 ≡ none
unfolding method_of_id
method_of_id-unknown = refl

-- A Report OutdoorTemp whose body stops after one byte.
abbrev short_report : Bytes
short_report = 2 ∷ 0x17 ∷ 1 ∷ 0 ∷ 0 ∷ 5 ∷ []

abbrev short_message : TrpcPacket
short_message = record { service_id = 2; method_id = 0x117; body = ("temp", 5) ∷ []; extra = [] }

from_bytes-short_report : from_bytes short_report ≡ ok short_message
unfolding from_bytes unpack_int method_spec insert fields_size decode_fields
from_bytes-short_report = refl

to_bytes-from_bytes_example :
    to_bytes short_message
    ≡ ok (take 5 short_report ++ filled (method_spec 0x117) (drop 5 short_report))
to_bytes-from_bytes_example =
    to_bytes-from_bytes short_report short_message (omega arith) from_bytes-short_report

alias-group : lookup "groupid" (field_aliases (spec_of setpoint_group_enable)) ≡ some "group_id"
unfolding field_aliases spec_of lookup insert
alias-group = refl

create-group_named :
    create 1 (method_id setpoint_group_enable) (mapping group_fields)
    ≡ ok (record group { extra = [] })
unfolding method_id
create-group_named = create-group

get-create_example :
    get (record group { extra = [] }) "groupid"
    ≡ last_given
        (field_aliases (spec_of setpoint_group_enable))
        "group_id"
        (freeze_fields (mapping group_fields))
get-create_example =
    get-create setpoint_group_enable 1 (mapping group_fields) (record group { extra = [] })
      "groupid" "group_id" create-group_named alias-group

abbrev group_match : ResponseMatch
group_match = record {
  method_id = 0x13D;
  service_ids = some (4 ∷ 1 ∷ []);
  address = none;
  fields = ("group_id", 2) ∷ [];
}

matches_iff_example : (matches group_match group ≡ true) ↔ Matches group_match group
matches_iff_example = matches_iff group_match group
