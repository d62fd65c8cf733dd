-- ===== src/Trpc/Spec/Laws.antt =====
-- Facts of the field layouts of src/tekmar_482/trpc.py: writing the fields of a layout in turn.
use tekmar.Prelude.{
  ℕ, ◌≡◌, refl, ap, ◌∙◌, false, none, some, List, [], ◌∷◌, ◌++◌, append-nil, append_assoc, All,
  String,
}
use tekmar.Prelude.Dict.{text_key, Dict, lookup, insert, lookup-insert, insert-fresh}
use tekmar.Prelude.Texts.{str_eq}
use tekmar.Exceptions.{ok}
use tekmar.Trpc.Spec.{
  FieldSpec, MethodSpec, normalize_loop, normalize_fields, field_aliases, known_only,
}

-- No field of the list has this name.
abbrev pub IsFresh : String → List FieldSpec → Type 0
IsFresh name [] = Unit
IsFresh name (item ∷ items) = (str_eq name item.name ≡ false) × IsFresh name items

abbrev pub Distinct : List FieldSpec → Type 0
Distinct [] = Unit
Distinct (item ∷ items) = IsFresh item.name items × Distinct items

-- None of the fields is in the dict.
abbrev pub Absent : List FieldSpec → Dict ℕ → Type 0
Absent items body = All (λ item. lookup item.name body ≡ none) items

unfoldable pub entries : List FieldSpec → (FieldSpec → ℕ) → Dict ℕ
entries [] f = []
entries (item ∷ items) f = (item.name, f item) ∷ entries items f

unfoldable pub insert_all : List FieldSpec → (FieldSpec → ℕ) → Dict ℕ → Dict ℕ
insert_all [] f body = body
insert_all (item ∷ items) f body = insert_all items f (insert item.name (f item) body)

Absent-insert :
    (name : String) (v : ℕ) (items : List FieldSpec) (body : Dict ℕ)
    → IsFresh name items
    → Absent items body
    → Absent items (insert name v body)
Absent-insert name v [] body fresh absent = tt
Absent-insert name v (item ∷ items) body fresh absent =
    (rw lookup-insert (rw (fresh.0) absent.0), Absent-insert name v items body fresh.1 absent.1)

pub insert_all-entries :
    (items : List FieldSpec) (f : FieldSpec → ℕ) (body : Dict ℕ)
    → Distinct items
    → Absent items body
    → insert_all items f body ≡ body ++ entries items f
unfolding insert_all entries
insert_all-entries [] f body d a = rw append-nil
insert_all-entries (item ∷ items) f body d a =
    insert_all-entries items f (insert item.name (f item) body) d.1
      (Absent-insert item.name (f item) items body d.0 a.1)
    ∙ rw (insert-fresh item.name (f item) body a.0) (rw append_assoc)

pub Absent-empty : (items : List FieldSpec) → Absent items []
unfolding lookup
Absent-empty [] = tt
Absent-empty (item ∷ items) = (refl, Absent-empty items)

-- Each field is known by its own name.
abbrev pub SelfNamed : Dict String → List FieldSpec → Type 0
SelfNamed aliases items = All (λ item. lookup item.name aliases ≡ some item.name) items

normalize_loop-entries :
    (aliases : Dict String) (items : List FieldSpec) (f : FieldSpec → ℕ) (body : Dict ℕ)
    → SelfNamed aliases items
    → normalize_loop aliases (entries items f) (record { fields = body; unknown = [] })
      ≡ record { fields = insert_all items f body; unknown = [] }
unfolding normalize_loop insert_all entries
normalize_loop-entries aliases [] f body s = refl
normalize_loop-entries aliases (item ∷ items) f body s =
    rw (s.0, normalize_loop)
      (normalize_loop-entries aliases items f (insert item.name (f item) body) s.1)

-- Fields in the layout's order and under their own names are normalized to themselves.
pub normalize_fields-entries :
    (spec : MethodSpec) (f : FieldSpec → ℕ)
    → Distinct spec.fields
    → SelfNamed (field_aliases spec) spec.fields
    → normalize_fields spec (entries spec.fields f) ≡ ok (entries spec.fields f)
unfolding normalize_fields
normalize_fields-entries spec f d s =
    ap (λ n. known_only n.unknown n.fields)
      (normalize_loop-entries (field_aliases spec) spec.fields f [] s)
    ∙ ap ok (insert_all-entries spec.fields f [] d (Absent-empty spec.fields))
