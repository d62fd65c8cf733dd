-- ===== src/Trpc/Lookup.antt =====
-- The lookups of src/tekmar_482/trpc.py by id and by name, `SERVICE_IDS` and `METHOD_IDS`.
pub mod Names
use mathlib.Core.Option
use tekmar.Prelude.{ℕ, String, Option, none, some, List, [], ◌∷◌, ◌==◌, if◌then◌else◌}
use tekmar.Prelude.Dict.{text_key, Dict, lookup, insert}
use tekmar.Exceptions.{TekmarError, Result, ok, err, unknown_service, unknown_method}
use tekmar.Trpc.Spec.{MethodSpec}
use tekmar.Trpc.Methods.{
  TrpcService, update, request, response_update, response_request, service_id, all_services,
  service_display, TrpcMethod, method_id, all_methods, spec_of,
}

-- `TrpcService(value)`: the member with this value, or ValueError.
find_service : ℕ → List TrpcService → Option TrpcService
find_service value [] = none
find_service value (s ∷ rest) = if service_id s == value then some s else find_service value rest

unfoldable pub service_of_id : ℕ → Option TrpcService
unfolding find_service service_id
service_of_id value = find_service value all_services

-- `TrpcMethod(value)`.
find_method : ℕ → List TrpcMethod → Option TrpcMethod
find_method value [] = none
find_method value (m ∷ rest) = if method_id m == value then some m else find_method value rest

unfoldable pub method_of_id : ℕ → Option TrpcMethod
unfolding find_method method_id
method_of_id value = find_method value all_methods

unfoldable pub method_spec : ℕ → Option MethodSpec
unfolding method_of_id spec_of
method_spec method = Option.map spec_of (method_of_id method)

unfoldable pub method_name : ℕ → Option String
unfolding method_spec
method_name method = Option.map (λ s. s.name) (method_spec method)

unfoldable pub service_name : ℕ → Option String
unfolding service_of_id service_display
service_name service = Option.map service_display (service_of_id service)

-- `SERVICE_IDS`.
service_ids : List TrpcService → Dict TrpcService → Dict TrpcService
service_ids [] ids = ids
service_ids (s ∷ rest) ids = service_ids rest (insert (service_display s) s ids)

-- `METHOD_IDS`: the names, and then the aliases.
name_ids : List TrpcMethod → Dict TrpcMethod → Dict TrpcMethod
name_ids [] ids = ids
name_ids (m ∷ rest) ids = name_ids rest (insert (spec_of m).name m ids)

alias_ids : TrpcMethod → List String → Dict TrpcMethod → Dict TrpcMethod
alias_ids m [] ids = ids
alias_ids m (alias ∷ rest) ids = alias_ids m rest (insert alias m ids)

all_alias_ids : List TrpcMethod → Dict TrpcMethod → Dict TrpcMethod
all_alias_ids [] ids = ids
all_alias_ids (m ∷ rest) ids = all_alias_ids rest (alias_ids m (spec_of m).aliases ids)

pub method_ids : Dict TrpcMethod
unfolding name_ids alias_ids all_alias_ids spec_of insert
method_ids = all_alias_ids all_methods (name_ids all_methods [])

found_or {ℓ} : {A : Type ℓ} → TekmarError → Option A → Result A
found_or e none = err e
found_or e (some a) = ok a

unfoldable pub service_from_name : String → Result TrpcService
unfolding found_or lookup insert service_ids service_display
service_from_name name = found_or unknown_service (lookup name (service_ids all_services []))

unfoldable pub method_from_name : String → Result TrpcMethod
unfolding found_or lookup method_ids
method_from_name name = found_or unknown_method (lookup name method_ids)

unfoldable pub response_service_for : ℕ → Option TrpcService
unfolding service_id
response_service_for service =
    if service == service_id request
    then some response_request
    else if service == service_id update
    then some response_update
    else none
