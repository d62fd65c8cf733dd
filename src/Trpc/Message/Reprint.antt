-- ===== src/Trpc/Message/Reprint.antt =====
-- `TrpcPacket.from_bytes` and then `TrpcPacket.to_bytes` (src/tekmar_482/trpc.py).
use mathlib.Core.Path.{ap₂, subst}
use tekmar.Prelude.{
  ℕ, zero, suc, ◌+◌, ◌-◌, ◌*◌, ◌≤◌, ◌<◌, ◌≡◌, ◌↔◌, refl, sym, ap, ◌∙◌, Option, none, some, [], ◌∷◌,
  ◌++◌, append-nil, append_assoc, All-append, IsByte, Bytes, AreBytes, arith, length, length-append,
  AreBytes-take, AreBytes-drop, take, drop, get_or, replicate, Option-cases, inl, inr,
}
use tekmar.Exceptions.{ok, err, protocol_error}
use tekmar.Trpc.Ints.{pack_int, unpack_int, pack_int-unpack_int}
use tekmar.Trpc.Spec.{MethodSpec, size}
use tekmar.Trpc.Spec.Laws.{entries, insert_all-entries, Absent-empty, normalize_fields-entries}
use tekmar.Trpc.Methods.{TrpcMethod, spec_of}
use tekmar.Trpc.Methods.Layout.{spec_of-Distinct, spec_of-SelfNamed}
use tekmar.Trpc.Lookup.{method_of_id, method_spec}
use tekmar.Trpc.Message.Codec.{
  wire_value, decode_fields-encode_fields, chunks, encode_fields-chunks, encode_fields-entries,
}
use tekmar.Trpc.Message.RoundTrip.{
  method_spec-unknown, method_spec-found, encode_body-some, encode_body-none, decode_body-none,
  to_bytes-framed,
}
use tekmar.Trpc.Message.{
  TrpcPacket, encode_fields, encode_body, to_bytes, ljust, slice, decode_fields, decode_body,
  from_bytes,
}

-- The body of a known method cut or filled up with zeros to the size of its fields.
abbrev pub padded : MethodSpec → Bytes → Bytes
padded spec body = ljust (take (size spec) body) (size spec)

-- The bytes that a payload spells, with the body filled up to the size of a known method.
abbrev pub filled : Option MethodSpec → Bytes → Bytes
filled none body = body
filled (some spec) body = padded spec body ++ drop (size spec) body

-- Parsing fails exactly on fewer than five bytes, with ProtocolError.
pub from_bytes_short :
    (bytes : Bytes) → (from_bytes bytes ≡ err protocol_error) ↔ (length bytes < 5)
unfolding from_bytes
from_bytes_short bytes = ground arith

length-replicate : (n : ℕ) → length (replicate {A = ℕ} n 0) ≡ n
length-replicate zero = refl
length-replicate (suc n) = ap suc (length-replicate n)

AreBytes-replicate : (n : ℕ) → AreBytes (replicate n 0)
AreBytes-replicate zero = tt
AreBytes-replicate (suc n) = (omega arith, AreBytes-replicate n)

length-take-le : (n : ℕ) (xs : Bytes) → length (take n xs) ≤ n
length-take-le zero xs = omega arith
length-take-le (suc n) [] = omega arith
length-take-le (suc n) (x ∷ xs) = omega (arith, length-take-le n xs)

length-padded : (spec : MethodSpec) (body : Bytes) → length (padded spec body) ≡ size spec
unfolding ljust
length-padded spec body =
    let front = take (size spec) body in
    omega (
      arith,
      length-take-le (size spec) body,
      length-append front (replicate (size spec - length front) 0),
      length-replicate (size spec - length front),
    )

padded-AreBytes : (spec : MethodSpec) (body : Bytes) → AreBytes body → AreBytes (padded spec body)
unfolding ljust
padded-AreBytes spec body h =
    All-append IsByte (take (size spec) body) _ (AreBytes-take (size spec) body h)
      (AreBytes-replicate _)

header :
    (bytes : Bytes)
    → AreBytes bytes
    → 5 ≤ length bytes
    → pack_int (get_or bytes 0 0) 1 ++ pack_int (unpack_int (slice 1 5 bytes)) 4 ≡ take 5 bytes
unfolding unpack_int
header (a ∷ b ∷ c ∷ d ∷ e ∷ rest) h n =
    let one : a + 256 * 0 ≡ a = omega arith in
    ap₂ ◌++◌ (rw one at (pack_int-unpack_int (a ∷ []) (h.0, tt)))
      (pack_int-unpack_int (b ∷ c ∷ d ∷ e ∷ []) (omega (arith, h)))
header (a ∷ b ∷ c ∷ d ∷ []) h n = absurd (omega arith)
header (a ∷ b ∷ c ∷ []) h n = absurd (omega arith)
header (a ∷ b ∷ []) h n = absurd (omega arith)
header (a ∷ []) h n = absurd (omega arith)
header [] h n = absurd (omega arith)

-- The body of a known method, parsed and serialized.
reprint-known :
    (k : TrpcMethod) (service method : ℕ) (body : Bytes)
    → AreBytes body
    → (m : TrpcPacket) → decode_body (some (spec_of k)) service method body ≡ m
    → encode_body (some (spec_of k)) m.body m.extra ≡ ok (filled (some (spec_of k)) body)
unfolding decode_body
reprint-known k service method body h m e =
    let spec = spec_of k in
    let pad = padded spec body in
    let d = chunks spec.fields pad in
    let spelled : encode_fields spec.fields d ≡ pad =
      encode_fields-chunks spec.fields pad (spec_of-Distinct k) (padded-AreBytes spec body h)
        (length-padded spec body) in
    let decoded : decode_fields spec.fields 0 pad [] ≡ entries spec.fields (wire_value d) =
      ap (λ b. decode_fields spec.fields 0 b [])
        (sym spelled ∙ sym (append-nil (encode_fields spec.fields d)))
      ∙ decode_fields-encode_fields spec.fields d 0 [] [] [] refl
      ∙ insert_all-entries spec.fields (wire_value d) [] (spec_of-Distinct k)
          (Absent-empty spec.fields) in
    rw (← e) (
      ap (λ b. encode_body (some spec) b (drop (size spec) body)) decoded
      ∙ encode_body-some spec (entries spec.fields (wire_value d))
          (entries spec.fields (wire_value d)) (drop (size spec) body)
          (normalize_fields-entries spec (wire_value d) (spec_of-Distinct k) (spec_of-SelfNamed k))
      ∙ ap (λ b. ok (b ++ drop (size spec) body))
          (encode_fields-entries spec.fields d (spec_of-Distinct k) ∙ spelled))

decode_body_ids :
    (o : Option MethodSpec) (service method : ℕ) (body : Bytes)
    → ((decode_body o service method body).service_id ≡ service)
      × ((decode_body o service method body).method_id ≡ method)
unfolding decode_body
decode_body_ids none service method body = (refl, refl)
decode_body_ids (some spec) service method body = (refl, refl)

abbrev Reprints : Option MethodSpec → ℕ → ℕ → Bytes → Type 0
Reprints o service method body =
    encode_body o (decode_body o service method body).body (decode_body o service method body).extra
    ≡ ok (filled o body)

reprint-unknown : (service method : ℕ) (body : Bytes) → Reprints none service method body
reprint-unknown service method body =
    rw (decode_body-none service method body) (encode_body-none [] body)

reprint :
    (service method : ℕ) (body : Bytes)
    → AreBytes body
    → Reprints (method_spec method) service method body
reprint service method body h = elim (Option-cases (method_of_id method)) [
  | inl u ↦ rw (method_spec-unknown method u) (reprint-unknown service method body)
  | inr (k, e) ↦ rw (method_spec-found method k e) (reprint-known k service method body h _ refl)
]

-- The message that at least five bytes spell.
abbrev parsed : Bytes → TrpcPacket
parsed bytes =
    let method = unpack_int (slice 1 5 bytes) in
    decode_body (method_spec method) (get_or bytes 0 0) method (drop 5 bytes)

from_bytes-parsed :
    (bytes : Bytes) (m : TrpcPacket)
    → from_bytes bytes ≡ ok m
    → (parsed bytes ≡ m) × (5 ≤ length bytes)
unfolding from_bytes
from_bytes-parsed bytes m e = ground arith

to_bytes-parsed :
    (bytes : Bytes)
    → AreBytes bytes
    → 5 ≤ length bytes
    → to_bytes (parsed bytes)
      ≡ ok (take 5 bytes ++ filled (method_spec (parsed bytes).method_id) (drop 5 bytes))
to_bytes-parsed bytes h n =
    let method = unpack_int (slice 1 5 bytes) in
    let o = method_spec method in
    let body = drop 5 bytes in
    let (service_kept, method_kept) = decode_body_ids o (get_or bytes 0 0) method body in
    to_bytes-framed (parsed bytes) (filled o body)
      (rw method_kept (reprint (get_or bytes 0 0) method body (AreBytes-drop 5 bytes h)))
    ∙ rw (service_kept, method_kept)
        (ap ok (
          sym (append_assoc (pack_int (get_or bytes 0 0) 1) (pack_int method 4) (filled o body))
          ∙ ap (λ front. front ++ filled o body) (header bytes h n)))

-- Serializing what was parsed gives the parsed bytes back, with the body filled up by zeros where
-- it is shorter than the fields of a known method.
pub to_bytes-from_bytes :
    (bytes : Bytes) (m : TrpcPacket)
    → AreBytes bytes
    → from_bytes bytes ≡ ok m
    → to_bytes m ≡ ok (take 5 bytes ++ filled (method_spec m.method_id) (drop 5 bytes))
to_bytes-from_bytes bytes m h e =
    let (same, n) = from_bytes-parsed bytes m e in
    subst (λ q. to_bytes q ≡ ok (take 5 bytes ++ filled (method_spec q.method_id) (drop 5 bytes)))
      same (to_bytes-parsed bytes h n)
