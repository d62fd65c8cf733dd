-- ===== src/Trpc/Message/RoundTrip.antt =====
-- `TrpcPacket.to_bytes` against `TrpcPacket.from_bytes` (src/tekmar_482/trpc.py).
use native.Mathlib.Nat.{mod-eq_of_lt}
use mathlib.Core.Option
use tekmar.Prelude.{
  ℕ, ◌-◌, ◌^◌, ◌<◌, ◌≡◌, refl, sym, ap, ◌∙◌, false, none, some, List, [], ◌++◌, append_assoc, Bytes,
  arith, length, length-append, take, drop, get_or, take-append, drop-append, ltb,
}
use tekmar.Prelude.Dict.{text_key, Dict}
use tekmar.Exceptions.{ok, ◌>>=◌}
use tekmar.Trpc.Ints.{pack_int, unpack_int, length-pack_int, unpack_int-pack_int}
use tekmar.Trpc.Spec.{MethodSpec, fields_size, normalize_fields}
use tekmar.Trpc.Spec.Laws.{entries, insert_all-entries, Absent-empty}
use tekmar.Trpc.Methods.{TrpcMethod, method_id, spec_of}
use tekmar.Trpc.Methods.Layout.{spec_of-Distinct}
use tekmar.Trpc.Lookup.{method_of_id, method_spec}
use tekmar.Trpc.Lookup.Names.{method_of_id_iff}
use tekmar.Trpc.Message.Codec.{wire_value, length-encode_fields, decode_fields-encode_fields}
use tekmar.Trpc.Message.{
  TrpcPacket, encode_fields, encode_body, to_bytes, ljust, decode_body, from_bytes,
}

-- The bytes of a header before a body.
abbrev pub framed : ℕ → ℕ → Bytes → Bytes
framed service method body = pack_int service 1 ++ (pack_int method 4 ++ body)

take-append_of_length {ℓ} :
    {A : Type ℓ} (n : ℕ) (xs ys : List A) → length xs ≡ n → take n (xs ++ ys) ≡ xs
take-append_of_length n xs ys e = rw (← e) (take-append xs ys)

drop-append_of_length {ℓ} :
    {A : Type ℓ} (n : ℕ) (xs ys : List A) → length xs ≡ n → drop n (xs ++ ys) ≡ ys
drop-append_of_length n xs ys e = rw (← e) (drop-append xs ys)

head-framed :
    (service method : ℕ) (body : Bytes)
    → service < 256
    → get_or (framed service method body) 0 0 ≡ service
unfolding pack_int
head-framed service method body h = omega arith

-- The header is read back, in front of any body.
from_bytes-framed :
    (service method : ℕ) (body : Bytes)
    → service < 256
    → method < 2 ^ 32
    → from_bytes (framed service method body)
      ≡ ok (decode_body (method_spec method) service method body)
unfolding from_bytes
from_bytes-framed service method body hs hm =
    let rest = pack_int method 4 ++ body in
    let one = length-pack_int service 1 in
    let four = length-pack_int method 4 in
    let long : ltb (length (framed service method body)) 5 ≡ false = ground (
      arith,
      one,
      four,
      length-append (pack_int service 1) rest,
      length-append (pack_int method 4) body,
    ) in
    let tail : drop 1 (framed service method body) ≡ rest =
      drop-append_of_length 1 (pack_int service 1) rest one in
    let id : unpack_int (take 4 rest) ≡ method =
      ap unpack_int (take-append_of_length 4 (pack_int method 4) body four)
      ∙ unpack_int-pack_int method 4
      ∙ mod-eq_of_lt hm in
    let after : drop 5 (framed service method body) ≡ body =
      ap (drop 5) (sym (append_assoc (pack_int service 1) (pack_int method 4) body))
      ∙ drop-append_of_length 5 (pack_int service 1 ++ pack_int method 4) body
          (omega (arith, one, four, length-append (pack_int service 1) (pack_int method 4))) in
    rw (long, tail, id, after, head-framed service method body hs)

ljust-full : (b : Bytes) (n : ℕ) → length b ≡ n → ljust b n ≡ b ++ []
unfolding ljust
ljust-full b n e = let z : n - length b ≡ 0 = omega arith in rw z

-- The encoded fields and what follows them are read back.
decode_body-encode_fields :
    (k : TrpcMethod) (service method : ℕ) (fields : Dict ℕ) (extra : Bytes)
    → decode_body
        (some (spec_of k))
        service
        method
        (encode_fields (spec_of k).fields fields ++ extra)
      ≡ record {
        service_id = service;
        method_id = method;
        body = entries (spec_of k).fields (wire_value fields);
        extra = extra;
      }
unfolding decode_body
decode_body-encode_fields k service method fields extra =
    let items = (spec_of k).fields in
    let e = encode_fields items fields in
    let n = length-encode_fields items fields in
    let whole : ljust (take (fields_size items) (e ++ extra)) (fields_size items) ≡ e ++ [] =
      ap (λ b. ljust b (fields_size items)) (take-append_of_length (fields_size items) e extra n)
      ∙ ljust-full e (fields_size items) n in
    rw (whole, drop-append_of_length (fields_size items) e extra n)
      (ap (λ b. record { service_id = service; method_id = method; body = b; extra = extra })
        (decode_fields-encode_fields items fields 0 [] [] [] refl
          ∙ insert_all-entries items (wire_value fields) [] (spec_of-Distinct k)
              (Absent-empty items)))

pub method_spec-known :
    (k : TrpcMethod) (value : ℕ) → method_id k ≡ value → method_spec value ≡ some (spec_of k)
unfolding method_spec
method_spec-known k value e = ap (Option.map spec_of) ((method_of_id_iff value k).1 e)

pub method_spec-found :
    (value : ℕ) (k : TrpcMethod)
    → method_of_id value ≡ some k
    → method_spec value ≡ some (spec_of k)
unfolding method_spec
method_spec-found value k u = ap (Option.map spec_of) u

pub method_spec-unknown : (value : ℕ) → method_of_id value ≡ none → method_spec value ≡ none
unfolding method_spec
method_spec-unknown value u = ap (Option.map spec_of) u

pub encode_body-some :
    (spec : MethodSpec) (body fields : Dict ℕ) (extra : Bytes)
    → normalize_fields spec body ≡ ok fields
    → encode_body (some spec) body extra ≡ ok (encode_fields spec.fields fields ++ extra)
unfolding encode_body
encode_body-some spec body fields extra n =
    ap (λ r. r >>= λ normalized. ok (encode_fields spec.fields normalized ++ extra)) n

pub to_bytes-framed :
    (m : TrpcPacket) (body : Bytes)
    → encode_body (method_spec m.method_id) m.body m.extra ≡ ok body
    → to_bytes m ≡ ok (framed m.service_id m.method_id body)
unfolding to_bytes
to_bytes-framed m body h = ap (λ r. r >>= λ b. ok (framed m.service_id m.method_id b)) h

pub encode_body-none : (body : Dict ℕ) (extra : Bytes) → encode_body none body extra ≡ ok extra
unfolding encode_body
encode_body-none body extra = refl

pub decode_body-none :
    (service method : ℕ) (bytes : Bytes)
    → decode_body none service method bytes
      ≡ record { service_id = service; method_id = method; body = []; extra = bytes }
unfolding decode_body
decode_body-none service method bytes = refl

method_id-lt : (k : TrpcMethod) → method_id k < 2 ^ 32
unfolding method_id
method_id-lt tekmar.Trpc.Methods.null_method = omega arith
method_id-lt _ = omega arith

-- The bytes of a message of a known method.
abbrev pub encoded : TrpcMethod → TrpcPacket → Dict ℕ → Bytes
encoded k m fields =
    framed m.service_id m.method_id (encode_fields (spec_of k).fields fields ++ m.extra)

module _ (k : TrpcMethod) (m : TrpcPacket) (fields : Dict ℕ)
    (known : method_id k ≡ m.method_id) where
  pub to_bytes-known :
      normalize_fields (spec_of k) m.body ≡ ok fields → to_bytes m ≡ ok (encoded k m fields)
  to_bytes-known n = to_bytes-framed m (encode_fields (spec_of k).fields fields ++ m.extra) (
      ap (λ o. encode_body o m.body m.extra) (method_spec-known k m.method_id known)
      ∙ encode_body-some (spec_of k) m.body fields m.extra n)

  pub from_bytes-encoded :
      m.service_id < 256
      → from_bytes (encoded k m fields)
        ≡ ok (record m { body = entries (spec_of k).fields (wire_value fields) })
  from_bytes-encoded h =
      let body = encode_fields (spec_of k).fields fields ++ m.extra in
      from_bytes-framed m.service_id m.method_id body h (omega (arith, method_id-lt k, known))
      ∙ ap (λ o. ok (decode_body o m.service_id m.method_id body))
          (method_spec-known k m.method_id known)
      ∙ ap ok (decode_body-encode_fields k m.service_id m.method_id fields m.extra)

  -- A message of a known method with a service id below 256, whose field names are known, is
  -- serialized, and parsing its bytes
  -- gives the same ids and extra bytes, with a body that has exactly the fields of the method, each
  -- with the value that the message's normalized fields give it (0 if none) modulo its size.
  pub from_bytes-to_bytes :
      m.service_id < 256
      → normalize_fields (spec_of k) m.body ≡ ok fields
      → (bytes : Bytes) × (to_bytes m ≡ ok bytes)
        × (from_bytes bytes
            ≡ ok (record m { body = entries (spec_of k).fields (wire_value fields) }))
  from_bytes-to_bytes h n = (encoded k m fields, to_bytes-known n, from_bytes-encoded h)

-- A message of an unknown method keeps its ids and its extra bytes, and loses its body.
pub from_bytes-to_bytes_unknown :
    (m : TrpcPacket)
    → method_of_id m.method_id ≡ none
    → m.service_id < 256
    → m.method_id < 2 ^ 32
    → (bytes : Bytes) × (to_bytes m ≡ ok bytes) × (from_bytes bytes ≡ ok (record m { body = [] }))
from_bytes-to_bytes_unknown m u hs hm =
    let s = method_spec-unknown m.method_id u in
    (
      framed m.service_id m.method_id m.extra,
      to_bytes-framed m m.extra
          (ap (λ o. encode_body o m.body m.extra) s ∙ encode_body-none m.body m.extra),
      from_bytes-framed m.service_id m.method_id m.extra hs hm
          ∙ ap (λ o. ok (decode_body o m.service_id m.method_id m.extra)) s
          ∙ ap ok (decode_body-none m.service_id m.method_id m.extra),
    )
