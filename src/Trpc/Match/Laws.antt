-- ===== src/Trpc/Match/Laws.antt =====
-- `ResponseMatch.matches` and `for_command` (src/tekmar_482/trpc.py).

use tekmar.Prelude.{ℕ, ◌≡◌, ◌↔◌, Option, none, some, arith, List, [], ◌∷◌, All, true, ◌⊎◌}
use tekmar.Prelude.Dict.{text_key, Dict}
use tekmar.Trpc.Fields.{FieldsInput, nothing, freeze_fields}
use tekmar.Trpc.Message.{TrpcPacket, get}
use tekmar.Trpc.Methods.{service_id, response_request, response_update}
use tekmar.Trpc.Match.{
  ResponseMatch, elem, service_passes, same_value, address_passes, fields_pass, matches,
  for_command, request_command, update_command, MatchOptions,
}

abbrev IsIn : ℕ → List ℕ → Type 0
IsIn n [] = ⊥
IsIn n (x ∷ xs) = (x ≡ n) ⊎ IsIn n xs

abbrev ServiceAllowed : Option (List ℕ) → ℕ → Type 0
ServiceAllowed none service = Unit
ServiceAllowed (some services) service = IsIn service services

abbrev AddressAllowed : Option ℕ → TrpcPacket → Type 0
AddressAllowed none m = Unit
AddressAllowed (some address) m = get m "address" ≡ some address

-- What a match asks of a message.
pub record Matches (r : ResponseMatch) (m : TrpcPacket) : Type 0 where
  pub service : ServiceAllowed r.service_ids m.service_id
  pub method : m.method_id ≡ r.method_id
  pub address : AddressAllowed r.address m
  pub fields : All (λ f. get m f.0 ≡ some f.1) r.fields

elem_iff : (n : ℕ) (xs : List ℕ) → (elem n xs ≡ true) ↔ IsIn n xs
unfolding elem
elem_iff n [] = ground arith
elem_iff n (x ∷ xs) = ground (arith, elem_iff n xs)

same_value_iff : (o : Option ℕ) (v : ℕ) → (same_value o v ≡ true) ↔ (o ≡ some v)
unfolding same_value
same_value_iff none v = ground arith
same_value_iff (some w) v = ground arith

fields_pass_iff :
    (fields : Dict ℕ) (m : TrpcPacket)
    → (fields_pass fields m ≡ true) ↔ All (λ f. get m f.0 ≡ some f.1) fields
unfolding fields_pass
fields_pass_iff [] m = ground arith
fields_pass_iff ((key, value) ∷ fields) m =
    ground (arith, same_value_iff (get m key) value, fields_pass_iff fields m)

service_passes_iff :
    (o : Option (List ℕ)) (n : ℕ) → (service_passes o n ≡ true) ↔ ServiceAllowed o n
unfolding service_passes
service_passes_iff none n = ground arith
service_passes_iff (some services) n = elem_iff n services

address_passes_iff :
    (o : Option ℕ) (m : TrpcPacket)
    → (address_passes o (get m "address") ≡ true) ↔ AddressAllowed o m
unfolding address_passes
address_passes_iff none m = ground arith
address_passes_iff (some address) m = same_value_iff (get m "address") address

-- `matches` holds exactly if the service is among those allowed, where any are named, the method
-- is the one asked for, the address is the one asked for, where one is, and the message has every
-- field of the match with its value.
pub matches_iff : (r : ResponseMatch) (m : TrpcPacket) → (matches r m ≡ true) ↔ Matches r m
unfolding matches
matches_iff r m = ground (
  arith,
  service_passes_iff r.service_ids m.service_id,
  address_passes_iff r.address m,
  fields_pass_iff r.fields m,
)

-- The options of a call with no keyword argument.
abbrev pub defaults : MatchOptions
defaults = record {
  response_method = none;
  response_services = none;
  address = none;
  fields = nothing;
}

-- With no options, the response to a Request is a Response:Request of the same method, whatever
-- its fields, and the response to an Update is a Response:Update of the same method.
pub for_command_default :
    (method : ℕ) (fields : FieldsInput) (m : TrpcPacket)
    → ((matches (for_command (request_command method fields) defaults) m ≡ true)
        ↔ ((m.service_id ≡ service_id response_request) × (m.method_id ≡ method)))
      × ((matches (for_command (update_command method fields) defaults) m ≡ true)
          ↔ ((m.service_id ≡ service_id response_update) × (m.method_id ≡ method)))
unfolding matches for_command request_command update_command freeze_fields
for_command_default method fields m = ground arith
