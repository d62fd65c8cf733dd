-- ===== src/Trpc/Match.antt =====
-- `TrpcCommand` and `ResponseMatch` of src/tekmar_482/trpc.py.
pub mod Laws
use tekmar.Prelude.{
  ℕ, String, Bool, true, false, not, ◌&&◌, ◌||◌, Option, none, some, List, [], ◌∷◌, ◌==◌,
  if◌then◌else◌,
}
use mathlib.Core.Option
use tekmar.Prelude.Dict.{text_key, Dict}
use tekmar.Exceptions.{Result}
use tekmar.Trpc.Fields.{FieldsInput, mapping, freeze_fields}
use tekmar.Trpc.Lookup.{response_service_for}
use tekmar.Trpc.Methods.{service_id, request, update}
use tekmar.Trpc.Message.{TrpcPacket, create, get}

-- The service and the method are numeric ids, and the fields are frozen.
pub record TrpcCommand : Type 0 where
  pub service : ℕ
  pub method : ℕ
  pub fields : Dict ℕ

-- `TrpcCommand.request` and `TrpcCommand.update`.
unfoldable pub request_command : ℕ → FieldsInput → TrpcCommand
unfolding service_id
request_command method fields = record {
  service = service_id request;
  method = method;
  fields = freeze_fields fields;
}

unfoldable pub update_command : ℕ → FieldsInput → TrpcCommand
unfolding service_id
update_command method fields = record {
  service = service_id update;
  method = method;
  fields = freeze_fields fields;
}

unfoldable pub to_message : TrpcCommand → Result TrpcPacket
to_message command = create command.service command.method (mapping command.fields)

-- A `frozenset` of service ids is a list.
pub record ResponseMatch : Type 0 where
  pub method_id : ℕ
  pub service_ids : Option (List ℕ)
  pub address : Option ℕ
  pub fields : Dict ℕ

unfoldable pub elem : ℕ → List ℕ → Bool
elem n [] = false
elem n (x ∷ xs) = x == n || elem n xs

pub service_passes : Option (List ℕ) → ℕ → Bool
unfolding elem
service_passes none service = true
service_passes (some services) service = elem service services

-- `==` on `int | None`.
unfoldable pub same_value : Option ℕ → ℕ → Bool
same_value none value = false
same_value (some v) value = v == value

pub address_passes : Option ℕ → Option ℕ → Bool
unfolding same_value
address_passes none found = true
address_passes (some address) found = same_value found address

pub fields_pass : Dict ℕ → TrpcPacket → Bool
unfolding same_value
fields_pass [] m = true
fields_pass ((key, value) ∷ fields) m = same_value (get m key) value && fields_pass fields m

unfoldable pub matches : ResponseMatch → TrpcPacket → Bool
unfolding service_passes address_passes fields_pass
matches r m =
    if not (service_passes r.service_ids m.service_id)
    then false
    else if not (m.method_id == r.method_id)
    then false
    else if not (address_passes r.address (get m "address"))
    then false
    else fields_pass r.fields m

-- The keyword arguments of `for_command`.
pub record MatchOptions : Type 0 where
  pub response_method : Option ℕ
  pub response_services : Option (List ℕ)
  pub address : Option ℕ
  pub fields : FieldsInput

services_or_default : Option (List ℕ) → Option ℕ → Option (List ℕ)
services_or_default (some services) response = some services
services_or_default none none = none
services_or_default none (some service) = some (service ∷ [])

unfoldable pub for_command : TrpcCommand → MatchOptions → ResponseMatch
unfolding services_or_default response_service_for service_id
for_command command o = record {
  method_id = Option.get_or o.response_method command.method;
  service_ids =
      services_or_default o.response_services
        (Option.map service_id (response_service_for command.service));
  address = o.address;
  fields = freeze_fields o.fields;
}
