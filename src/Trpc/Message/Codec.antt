-- ===== src/Trpc/Message/Codec.antt =====
-- The loops over the fields in `to_bytes` and `from_bytes` (src/tekmar_482/trpc.py).
use mathlib.Core.Path.{ap₂}
use tekmar.Prelude.{
  ℕ, ◌+◌, ◌-◌, ◌*◌, ◌%◌, ◌^◌, ◌≡◌, refl, sym, ap, ◌∙◌, List, [], ◌∷◌, ◌++◌, append_assoc, Bytes,
  AreBytes, String, arith, length, length-append, length-drop, length-take, AreBytes-take,
  AreBytes-drop, take, drop, take-append, drop-append, take-append-drop,
}
use tekmar.Prelude.Dict.{text_key, Dict, lookup, insert}
use tekmar.Prelude.Texts.{eq_refl}
use tekmar.Trpc.Ints.{
  pack_int, unpack_int, length-pack_int, unpack_int-pack_int, pack_int-unpack_int, pack_int-mod,
}
use tekmar.Trpc.Spec.{FieldSpec, fields_size}
use tekmar.Trpc.Spec.Laws.{IsFresh, Distinct, entries, insert_all}
use tekmar.Trpc.Message.{get_default, encode_fields, decode_fields, slice}

-- The value that a field has on the wire.
pub wire_value : Dict ℕ → FieldSpec → ℕ
wire_value fields item = get_default fields item.name % 2 ^ (item.size * 8)

pub length-encode_fields :
    (items : List FieldSpec) (fields : Dict ℕ)
    → length (encode_fields items fields) ≡ fields_size items
unfolding encode_fields fields_size
length-encode_fields [] fields = refl
length-encode_fields (item ∷ items) fields =
    length-append (pack_int (get_default fields item.name) item.size) (encode_fields items fields)
    ∙ omega (
      arith,
      length-pack_int (get_default fields item.name) item.size,
      length-encode_fields items fields,
    )

slice-append :
    (pre mid post : Bytes) (stop : ℕ)
    → stop ≡ length pre + length mid
    → slice (length pre) stop (pre ++ (mid ++ post)) ≡ mid
slice-append pre mid post stop e =
    let n : stop - length pre ≡ length mid = omega arith in
    rw (n, drop-append pre (mid ++ post)) (take-append mid post)

decode_field :
    (item : FieldSpec) (fields : Dict ℕ) (offset : ℕ) (pre rest post : Bytes)
    → offset ≡ length pre
    → unpack_int (
        slice offset
          (offset + item.size)
          (pre ++ ((pack_int (get_default fields item.name) item.size ++ rest) ++ post)))
      ≡ wire_value fields item
unfolding wire_value
decode_field item fields offset pre rest post e =
    let v = pack_int (get_default fields item.name) item.size in
    rw (e, append_assoc v rest post)
      (ap unpack_int (
          slice-append pre v (rest ++ post) (length pre + item.size)
            (omega (arith, length-pack_int (get_default fields item.name) item.size)))
        ∙ unpack_int-pack_int (get_default fields item.name) item.size)

-- Decoding what was encoded inserts the values on the wire.
pub decode_fields-encode_fields :
    (items : List FieldSpec) (fields : Dict ℕ) (offset : ℕ) (pre post : Bytes) (body : Dict ℕ)
    → offset ≡ length pre
    → decode_fields items offset (pre ++ (encode_fields items fields ++ post)) body
      ≡ insert_all items (wire_value fields) body
unfolding encode_fields decode_fields insert_all wire_value
decode_fields-encode_fields [] fields offset pre post body e = refl
decode_fields-encode_fields (item ∷ items) fields offset pre post body e =
    let v = pack_int (get_default fields item.name) item.size in
    let rest = encode_fields items fields in
    let whole : pre ++ ((v ++ rest) ++ post) ≡ (pre ++ v) ++ (rest ++ post) = simp append_assoc in
    rw (decode_field item fields offset pre rest post e) (
      rw whole (
        decode_fields-encode_fields items fields (offset + item.size) (pre ++ v) post
          (insert item.name (wire_value fields item) body)
          (omega (
            arith,
            e,
            length-append pre v,
            length-pack_int (get_default fields item.name) item.size,
          ))))

-- The dict that the bytes spell, field by field.
pub chunks : List FieldSpec → Bytes → Dict ℕ
chunks [] bytes = []
chunks (item ∷ items) bytes =
    (item.name, unpack_int (take item.size bytes)) ∷ chunks items (drop item.size bytes)

encode_fields-fresh :
    (items : List FieldSpec) (name : String) (v : ℕ) (fields : Dict ℕ)
    → IsFresh name items
    → encode_fields items ((name, v) ∷ fields) ≡ encode_fields items fields
unfolding encode_fields lookup
encode_fields-fresh [] name v fields f = refl
encode_fields-fresh (item ∷ items) name v fields f = rw (f.0) (
    ap (◌++◌ (pack_int (get_default fields item.name) item.size))
      (encode_fields-fresh items name v fields f.1))

get_default-head :
    (name : String) (v : ℕ) (fields : Dict ℕ) → get_default ((name, v) ∷ fields) name ≡ v
unfolding get_default lookup
get_default-head name v fields = rw eq_refl

-- Every byte string of the layout's size is the encoding of a dict.
pub encode_fields-chunks :
    (items : List FieldSpec) (bytes : Bytes)
    → Distinct items
    → AreBytes bytes
    → length bytes ≡ fields_size items
    → encode_fields items (chunks items bytes) ≡ bytes
unfolding encode_fields chunks fields_size
encode_fields-chunks [] [] d h n = refl
encode_fields-chunks [] (b ∷ bytes) d h n = absurd (omega arith)
encode_fields-chunks (item ∷ items) bytes d h n =
    let front = take item.size bytes in
    let len : length front ≡ item.size = length-take item.size bytes (omega arith) in
    let packed : pack_int (unpack_int front) item.size ≡ front =
      ap (pack_int (unpack_int front)) (sym len)
      ∙ pack_int-unpack_int front (AreBytes-take item.size bytes h) in
    rw
      (
        get_default-head,
        packed,
        encode_fields-fresh items item.name (unpack_int front) (chunks items (drop item.size bytes))
            d.0,
      )
      (ap (◌++◌ front) (
          encode_fields-chunks items (drop item.size bytes) d.1 (AreBytes-drop item.size bytes h)
            (omega (arith, length-drop item.size bytes)))
        ∙ take-append-drop item.size bytes)

pack_int-wire_value :
    (fields : Dict ℕ) (item : FieldSpec)
    → pack_int (wire_value fields item) item.size
      ≡ pack_int (get_default fields item.name) item.size
unfolding wire_value
pack_int-wire_value fields item = pack_int-mod (get_default fields item.name) item.size

-- The values on the wire are encoded as the values that they came from.
pub encode_fields-entries :
    (items : List FieldSpec) (fields : Dict ℕ)
    → Distinct items
    → encode_fields items (entries items (wire_value fields)) ≡ encode_fields items fields
unfolding encode_fields entries
encode_fields-entries [] fields d = refl
encode_fields-entries (item ∷ items) fields d =
    rw
      (
        get_default-head,
        encode_fields-fresh items item.name (wire_value fields item)
            (entries items (wire_value fields)) d.0,
      )
      (ap₂ ◌++◌ (pack_int-wire_value fields item) (encode_fields-entries items fields d.1))
