-- ===== src/Models/Setpoints/Raw/Named.antt =====
-- What `as_dict` has under the names of the setbacks (src/tekmar_482/models.py).
use tekmar.Prelude.{
  ℕ, ◌≡◌, refl, sym, ap, ◌∙◌, false, Bool-cases, Option, none, some, inl, inr, List, [], ◌∷◌,
  String, if◌then◌else◌, arith,
}
use tekmar.Prelude.Dict.{text_key, lookup}
use tekmar.Models.Setback.{ThaSetback, current_setback, same_setback, same_setback_iff, setback_key}
use tekmar.Models.Setpoints.{SetpointValues}
use tekmar.Models.Setpoints.Raw.{lower_name, add_present, named_values, setback_from_key}
use tekmar.Models.Setpoints.Raw.Loop.{RaisesNames, setback_from_key_lem, is_of, first_of, expected}

some_injective {ℓ} : {A : Type ℓ} {a b : A} → some a ≡ some b → a ≡ b
some_injective h = cc

module _ (upper : String → String) (raises : RaisesNames upper) where
  pub lower_name-same :
      (s other : ThaSetback)
      → text_key.same (lower_name s) (lower_name other) ≡ same_setback s other
  lower_name-same s other = elim (Bool-cases (text_key.same (lower_name s) (lower_name other))) [
    | inl e ↦
        e
        ∙ sym (
            (same_setback_iff s other).1 (
              some_injective (
                sym (setback_from_key_lem upper raises s)
                ∙ ap (setback_from_key upper)
                    ((text_key.same_iff (lower_name s) (lower_name other)).0 e)
                ∙ setback_from_key_lem upper raises other)))
    | inr e ↦ elim (Bool-cases (same_setback s other)) [
      | inl d ↦
          (text_key.same_iff (lower_name s) (lower_name other)).1
            (ap lower_name ((same_setback_iff s other).0 d))
          ∙ sym d
      | inr d ↦ e ∙ sym d
    ]
  ]

  lookup-add_present :
      (v : SetpointValues) (s setback : ThaSetback) (setbacks : List ThaSetback)
      (held : Option (Option ℕ))
      → lookup setback v.values ≡ held
      → same_setback setback current_setback ≡ false
      → lookup (lower_name s) (named_values v setbacks)
        ≡ expected (same_setback s current_setback) (is_of s setbacks) (lookup s v.values) none
      → lookup (lower_name s) (add_present setback held (named_values v setbacks))
        ≡ expected
            (same_setback s current_setback)
            (is_of s (setback ∷ setbacks))
            (lookup s v.values)
            none
  unfolding add_present is_of first_of lookup
  lookup-add_present v s setback setbacks none h e rest =
      elim (Bool-cases (same_setback setback s)) [
        | inl d ↦
            ground (arith, ap (λ x. lookup x v.values) ((same_setback_iff setback s).0 d), h, rest)
        | inr d ↦ ground (arith, d, rest)
      ]
  lookup-add_present v s setback setbacks (some value) h e rest =
      elim (Bool-cases (same_setback setback s)) [
        | inl d ↦ ground (
          arith,
          lower_name-same setback s,
          ap (λ x. lookup x v.values) ((same_setback_iff setback s).0 d),
          ap (λ x. same_setback x current_setback) ((same_setback_iff setback s).0 d),
          d,
          e,
          h,
        )
        | inr d ↦ ground (arith, lower_name-same setback s, d, rest)
      ]

  -- What `as_dict` has under the name of a setback, but for CURRENT.
  pub lookup-named_values :
      (v : SetpointValues) (s : ThaSetback) (setbacks : List ThaSetback)
      → lookup (lower_name s) (named_values v setbacks)
        ≡ expected (same_setback s current_setback) (is_of s setbacks) (lookup s v.values) none
  unfolding named_values is_of lookup
  lookup-named_values v s [] = ground arith
  lookup-named_values v s (setback ∷ setbacks) =
      elim (Bool-cases (same_setback setback current_setback)) [
        | inl e ↦ ground (
          arith,
          e,
          lookup-named_values v s setbacks,
          same_setback_iff setback current_setback,
          same_setback_iff setback s,
          same_setback_iff s current_setback,
        )
        | inr e ↦
            ap
              (λ b. lookup (lower_name s) (
                if b
                then named_values v setbacks
                else add_present setback (lookup setback v.values) (named_values v setbacks)))
              e
            ∙ lookup-add_present v s setback setbacks (lookup setback v.values) refl e
                (lookup-named_values v s setbacks)
      ]
