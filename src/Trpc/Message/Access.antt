-- ===== src/Trpc/Message/Access.antt =====
-- `TrpcPacket.create`, `get` and `require` (src/tekmar_482/trpc.py).
use mathlib.Core.Option
use tekmar.Prelude.{ℕ, ◌≡◌, ◌↔◌, refl, sym, ap, ◌∙◌, none, some, String, arith}
use tekmar.Prelude.Dict.{text_key, lookup}
use tekmar.Exceptions.{ok, err, unknown_field, bind-eq-ok}
use tekmar.Trpc.Spec.{MethodSpec, field_aliases, normalize_fields}
use tekmar.Trpc.Spec.Normalize.{last_given, lookup-normalize_fields}
use tekmar.Trpc.Methods.{TrpcMethod, method_id, spec_of}
use tekmar.Trpc.Lookup.{method_spec}
use tekmar.Trpc.Fields.{FieldsInput, freeze_fields}
use tekmar.Trpc.Message.RoundTrip.{method_spec-known}
use tekmar.Trpc.Message.{TrpcPacket, normalize_in, create, canonical_in, get, require}

create-eq-ok :
    (k : TrpcMethod) (service : ℕ) (fields : FieldsInput) (m : TrpcPacket)
    → create service (method_id k) fields ≡ ok m
    → (m.method_id ≡ method_id k)
      × (m.service_id ≡ service)
      × (normalize_fields (spec_of k) (freeze_fields fields) ≡ ok m.body)
unfolding create
create-eq-ok k service fields m h =
    let (body, n, e) =
      bind-eq-ok _ (normalize_in (method_spec (method_id k)) (freeze_fields fields)) h in
    let kept : body ≡ m.body = cc e in
    (
      cc e,
      cc e,
      ap (λ o. normalize_in o (freeze_fields fields)) (sym (method_spec-known k (method_id k) refl))
          ∙ n
          ∙ ap ok kept,
    )

canonical_in-known :
    (spec : MethodSpec) (field name : String)
    → lookup field (field_aliases spec) ≡ some name
    → canonical_in (some spec) field ≡ name
unfolding canonical_in
canonical_in-known spec field name a = ap (λ o. Option.get_or o field) a

get-known :
    (k : TrpcMethod) (m : TrpcPacket) (field name : String)
    → m.method_id ≡ method_id k
    → lookup field (field_aliases (spec_of k)) ≡ some name
    → get m field ≡ lookup name m.body
unfolding get
get-known k m field name e a =
    ap (λ o. lookup (canonical_in o field) m.body) (method_spec-known k m.method_id (sym e))
    ∙ ap (λ f. lookup f m.body) (canonical_in-known (spec_of k) field name a)

-- In a message made by `create` for a known method, `get` by the name or an alias of a field gives
-- the value of the last key that names the field, by its name or an alias, in the fields given.
pub get-create :
    (k : TrpcMethod) (service : ℕ) (fields : FieldsInput) (m : TrpcPacket) (field name : String)
    → create service (method_id k) fields ≡ ok m
    → lookup field (field_aliases (spec_of k)) ≡ some name
    → get m field ≡ last_given (field_aliases (spec_of k)) name (freeze_fields fields)
get-create k service fields m field name h a =
    let (id, from, n) = create-eq-ok k service fields m h in
    get-known k m field name id a
    ∙ lookup-normalize_fields (spec_of k) (freeze_fields fields) m.body name n

-- `require` returns the value that `get` finds, and raises UnknownFieldError if there is none.
pub require_iff :
    (m : TrpcPacket) (field : String) (value : ℕ)
    → ((require m field ≡ ok value) ↔ (get m field ≡ some value))
      × ((require m field ≡ err unknown_field) ↔ (get m field ≡ none))
unfolding require
require_iff m field value = ground arith
