-- ===== src/Trpc/Spec.antt =====
-- `FieldSpec` and `MethodSpec` of src/tekmar_482/trpc.py: the layout of a message body, and the
-- normalization of field names.
pub mod Laws
pub mod Normalize
use tekmar.Prelude.{ℕ, ◌+◌, String, Option, none, some, List, [], ◌∷◌, ◌++◌}
use tekmar.Prelude.Dict.{text_key, Dict, lookup, insert}
use tekmar.Exceptions.{Result, ok, err, unknown_field}

pub record FieldSpec : Type 0 where
  pub name : String
  pub size : ℕ
  pub aliases : List String

pub record MethodSpec : Type 0 where
  pub name : String
  pub fields : List FieldSpec
  pub aliases : List String

unfoldable pub fields_size : List FieldSpec → ℕ
fields_size [] = 0
fields_size (item ∷ items) = item.size + fields_size items

-- The property `MethodSpec.size`.
abbrev pub size : MethodSpec → ℕ
size spec = fields_size spec.fields

-- The inner loop of `field_aliases`.
pub add_aliases : String → List String → Dict String → Dict String
add_aliases name [] aliases = aliases
add_aliases name (alias ∷ rest) aliases = add_aliases name rest (insert alias name aliases)

unfoldable pub collect_aliases : List FieldSpec → Dict String → Dict String
unfolding add_aliases
collect_aliases [] aliases = aliases
collect_aliases (item ∷ items) aliases =
    collect_aliases items (add_aliases item.name item.aliases (insert item.name item.name aliases))

-- The property `MethodSpec.field_aliases`.
unfoldable pub field_aliases : MethodSpec → Dict String
unfolding collect_aliases
field_aliases spec = collect_aliases spec.fields []

-- The two accumulators of the loop in `normalize_fields`.
pub record Normalized : Type 0 where
  pub fields : Dict ℕ
  pub unknown : List String

normalize_field : Option String → String → ℕ → Normalized → Normalized
normalize_field none key value n = record n { unknown = n.unknown ++ (key ∷ []) }
normalize_field (some canonical) key value n = record n { fields = insert canonical value n.fields }

pub normalize_loop : Dict String → Dict ℕ → Normalized → Normalized
unfolding normalize_field
normalize_loop aliases [] n = n
normalize_loop aliases ((key, value) ∷ fields) n =
    normalize_loop aliases fields (normalize_field (lookup key aliases) key value n)

pub known_only : List String → Dict ℕ → Result (Dict ℕ)
known_only [] fields = ok fields
known_only (key ∷ unknown) fields = err unknown_field

unfoldable pub normalize_fields : MethodSpec → Dict ℕ → Result (Dict ℕ)
unfolding normalize_loop known_only field_aliases
normalize_fields spec fields =
    let n = normalize_loop (field_aliases spec) fields (record { fields = []; unknown = [] }) in
    known_only n.unknown n.fields
