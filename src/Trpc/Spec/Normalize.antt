-- ===== src/Trpc/Spec/Normalize.antt =====
-- What `MethodSpec.normalize_fields` (src/tekmar_482/trpc.py) does, stated without its loop.
use tekmar.Prelude.{
  ℕ, ◌≡◌, ◌≢◌, refl, sym, ap, ◌∙◌, Bool, true, false, ◌||◌, Option, none, some, ◌⊎◌, inl, inr, List,
  [], ◌∷◌, ◌++◌, append-nil, append_assoc, String, arith, if◌then◌else◌,
}
use tekmar.Prelude.Dict.{text_key, Dict, lookup, insert, lookup-insert}
use tekmar.Prelude.Texts.{str_eq}
use tekmar.Exceptions.{ok, err, unknown_field}
use tekmar.Trpc.Spec.{
  FieldSpec, MethodSpec, add_aliases, collect_aliases, Normalized, normalize_loop, normalize_field,
  normalize_fields, field_aliases, known_only,
}

keep_unknown : Option String → String → List String → List String
keep_unknown none key rest = key ∷ rest
keep_unknown (some canonical) key rest = rest

-- The keys that `aliases` has no field for, in order.
unknown_keys : Dict String → Dict ℕ → List String
unknown_keys aliases [] = []
unknown_keys aliases ((key, value) ∷ fields) =
    keep_unknown (lookup key aliases) key (unknown_keys aliases fields)

is_among : String → List String → Bool
is_among key [] = false
is_among key (name ∷ rest) = str_eq name key || is_among key rest

-- The key is the name or an alias of one of the fields.
is_named : String → List FieldSpec → Bool
unfolding is_among
is_named key [] = false
is_named key (item ∷ items) =
    str_eq item.name key || is_among key item.aliases || is_named key items

-- The keys of a body that are neither the name nor an alias of a field, in order.
unfoldable pub stray_keys : List FieldSpec → Dict ℕ → List String
unfolding is_named
stray_keys items [] = []
stray_keys items ((key, value) ∷ fields) =
    let rest = stray_keys items fields in if is_named key items then rest else key ∷ rest

names : Option String → String → Bool
names none name = false
names (some canonical) name = str_eq canonical name

later : Option ℕ → Option ℕ → Option ℕ
later none before = before
later (some v) before = some v

-- The value that the last key of the field `name` carries.
pub last_given : Dict String → String → Dict ℕ → Option ℕ
last_given aliases name [] = none
last_given aliases name ((key, value) ∷ fields) =
    later (last_given aliases name fields)
      (if names (lookup key aliases) name then some value else none)

keep_unknown-append :
    (o : Option String) (key : String) (value : ℕ) (n : Normalized) (rest : List String)
    → (normalize_field o key value n).unknown ++ rest ≡ n.unknown ++ keep_unknown o key rest
unfolding normalize_field keep_unknown
keep_unknown-append none key value n rest = append_assoc n.unknown (key ∷ []) rest
keep_unknown-append (some c) key value n rest = refl

lookup-normalize_field :
    (o : Option String) (key : String) (value : ℕ) (n : Normalized) (name : String)
    → lookup name (normalize_field o key value n).fields
      ≡ later (if names o name then some value else none) (lookup name n.fields)
unfolding normalize_field names later
lookup-normalize_field none key value n name = refl
lookup-normalize_field (some c) key value n name =
    ground (arith, lookup-insert c name value n.fields)

is_some : Option String → Bool
is_some none = false
is_some (some name) = true

lookup-add_aliases :
    (key name : String) (aliases : List String) (dict : Dict String)
    → is_some (lookup key (add_aliases name aliases dict))
      ≡ (is_among key aliases || is_some (lookup key dict))
unfolding add_aliases is_among is_some
lookup-add_aliases key name [] dict = refl
lookup-add_aliases key name (alias ∷ rest) dict = ground (
  arith,
  lookup-add_aliases key name rest (insert alias name dict),
  lookup-insert alias key name dict,
)

lookup-collect_aliases :
    (key : String) (items : List FieldSpec) (dict : Dict String)
    → is_some (lookup key (collect_aliases items dict))
      ≡ (is_named key items || is_some (lookup key dict))
unfolding collect_aliases is_named is_some
lookup-collect_aliases key [] dict = refl
lookup-collect_aliases key (item ∷ items) dict =
    let named = insert item.name item.name dict in
    ground (
      arith,
      lookup-collect_aliases key items (add_aliases item.name item.aliases named),
      lookup-add_aliases key item.name item.aliases named,
      lookup-insert item.name key item.name dict,
    )

keep_unknown-unless :
    (o : Option String) (key : String) (rest : List String)
    → keep_unknown o key rest ≡ (if is_some o then rest else key ∷ rest)
unfolding keep_unknown is_some
keep_unknown-unless none key rest = refl
keep_unknown-unless (some name) key rest = refl

unknown_keys-stray :
    (items : List FieldSpec) (fields : Dict ℕ)
    → unknown_keys (collect_aliases items []) fields ≡ stray_keys items fields
unfolding unknown_keys stray_keys lookup is_some
unknown_keys-stray items [] = refl
unknown_keys-stray items ((key, value) ∷ fields) = ground (
  arith,
  keep_unknown-unless (lookup key (collect_aliases items [])) key
      (unknown_keys (collect_aliases items []) fields),
  lookup-collect_aliases key items [],
  unknown_keys-stray items fields,
)

later_assoc : (a b c : Option ℕ) → later (later a b) c ≡ later a (later b c)
unfolding later
later_assoc none b c = refl
later_assoc (some v) b c = refl

normalize_loop-unknown :
    (aliases : Dict String) (fields : Dict ℕ) (n : Normalized)
    → (normalize_loop aliases fields n).unknown ≡ n.unknown ++ unknown_keys aliases fields
unfolding normalize_loop unknown_keys
normalize_loop-unknown aliases [] n = rw append-nil
normalize_loop-unknown aliases ((key, value) ∷ fields) n =
    normalize_loop-unknown aliases fields (normalize_field (lookup key aliases) key value n)
    ∙ keep_unknown-append (lookup key aliases) key value n (unknown_keys aliases fields)

normalize_loop-fields :
    (aliases : Dict String) (fields : Dict ℕ) (n : Normalized) (name : String)
    → lookup name (normalize_loop aliases fields n).fields
      ≡ later (last_given aliases name fields) (lookup name n.fields)
unfolding normalize_loop last_given later
normalize_loop-fields aliases [] n name = refl
normalize_loop-fields aliases ((key, value) ∷ fields) n name =
    let o = lookup key aliases in
    normalize_loop-fields aliases fields (normalize_field o key value n) name
    ∙ ap (later (last_given aliases name fields)) (lookup-normalize_field o key value n name)
    ∙ sym (
        later_assoc (last_given aliases name fields) (if names o name then some value else none)
          (lookup name n.fields))

known_only-cases :
    (u v : List String) (d : Dict ℕ)
    → u ≡ v
    → ((known_only u d ≡ ok d) × (v ≡ [])) ⊎ ((known_only u d ≡ err unknown_field) × (v ≢ []))
unfolding known_only
known_only-cases [] v d e = inl (refl, sym e)
known_only-cases (x ∷ xs) v d e = inr (refl, λ f. cc (e, f))

known_only-eq-ok : (u : List String) (fields d : Dict ℕ) → known_only u fields ≡ ok d → fields ≡ d
unfolding known_only
known_only-eq-ok [] fields d h = cc
known_only-eq-ok (x ∷ xs) fields d h = cc

abbrev start : Normalized
start = record { fields = []; unknown = [] }

later-none : (a : Option ℕ) → later a none ≡ a
unfolding later
later-none none = refl
later-none (some v) = refl

module _ (spec : MethodSpec) (fields : Dict ℕ) where
  abbrev done : Normalized
  done = normalize_loop (field_aliases spec) fields start

  -- `normalize_fields` succeeds if every key is the name or an alias of a field, and raises
  -- UnknownFieldError if some key is neither.
  pub normalize_fields_cases :
      ((d : Dict ℕ) × (normalize_fields spec fields ≡ ok d) × (stray_keys spec.fields fields ≡ []))
      ⊎ ((normalize_fields spec fields ≡ err unknown_field) × (stray_keys spec.fields fields ≢ []))
  unfolding normalize_fields field_aliases
  normalize_fields_cases =
      elim (known_only-cases done.unknown (stray_keys spec.fields fields) done.fields (
        normalize_loop-unknown (field_aliases spec) fields start
        ∙ unknown_keys-stray spec.fields fields)) [
          | inl (e, u) ↦ inl (done.fields, e, u)
          | inr (e, u) ↦ inr (e, u)
        ]

  -- A normalized body holds, for each field, the value of the last key that names it.
  pub lookup-normalize_fields :
      (d : Dict ℕ) (name : String)
      → normalize_fields spec fields ≡ ok d
      → lookup name d ≡ last_given (field_aliases spec) name fields
  unfolding normalize_fields lookup
  lookup-normalize_fields d name h =
      ap (lookup name) (sym (known_only-eq-ok done.unknown done.fields d h))
      ∙ normalize_loop-fields (field_aliases spec) fields start name
      ∙ later-none (last_given (field_aliases spec) name fields)
