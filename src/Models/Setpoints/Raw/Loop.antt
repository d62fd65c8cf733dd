-- ===== src/Models/Setpoints/Raw/Loop.antt =====
-- The loop of `from_raw` on the entries that `as_dict` writes (src/tekmar_482/models.py).
use tekmar.Prelude.{
  ℕ, ◌≡◌, refl, ap, ◌∙◌, Bool, true, false, ◌||◌, Bool-cases, Option, none, some, inl, inr, List,
  [], ◌∷◌, String, if◌then◌else◌, arith,
}
use tekmar.Prelude.Dict.{text_key, Map, Dict, lookup, insert, lookup-insert}
use tekmar.Models.Setback.{
  ThaSetback, wake_4, unocc_4, occ_4, sleep_4, occ_2, unocc_2, away, current_setback, all_setbacks,
  same_setback, same_setback_iff, setback_key,
}
use tekmar.Models.Setpoints.{SetpointValues}
use tekmar.Models.Setpoints.Raw.{
  member_name, lower_name, add_present, named_values, member_named, store_known, setback_from_key,
  read_values,
}

-- `str.upper` makes the name of each member of the name in small letters.
abbrev pub RaisesNames : (String → String) → Type 0
RaisesNames upper = (s : ThaSetback) → upper (lower_name s) ≡ member_name s

member_named_lem : (s : ThaSetback) → member_named (member_name s) all_setbacks ≡ some s
unfolding member_named member_name
member_named_lem wake_4 = refl
member_named_lem unocc_4 = refl
member_named_lem occ_4 = refl
member_named_lem sleep_4 = refl
member_named_lem occ_2 = refl
member_named_lem unocc_2 = refl
member_named_lem away = refl
member_named_lem current_setback = refl

-- The setback is one of the list.
unfoldable pub is_of : ThaSetback → List ThaSetback → Bool
is_of s [] = false
is_of s (setback ∷ setbacks) = same_setback setback s || is_of s setbacks

pub is_of_all : (s : ThaSetback) → is_of s all_setbacks ≡ true
unfolding is_of same_setback
is_of_all wake_4 = refl
is_of_all unocc_4 = refl
is_of_all occ_4 = refl
is_of_all sleep_4 = refl
is_of_all occ_2 = refl
is_of_all unocc_2 = refl
is_of_all away = refl
is_of_all current_setback = refl

unfoldable pub first_of : Option (Option ℕ) → Option (Option ℕ) → Option (Option ℕ)
first_of none other = other
first_of (some value) other = some value

pub first_of-none : (held : Option (Option ℕ)) → first_of held none ≡ held
unfolding first_of
first_of-none none = refl
first_of-none (some value) = refl

-- What is under a setback after the loop.
abbrev pub expected : Bool → Bool → Option (Option ℕ) → Option (Option ℕ) → Option (Option ℕ)
expected is_current is_member held before =
    if is_current then before else if is_member then first_of held before else before

module _ (upper : String → String) (raises : RaisesNames upper) where
  pub setback_from_key_lem : (s : ThaSetback) → setback_from_key upper (lower_name s) ≡ some s
  unfolding setback_from_key
  setback_from_key_lem s =
      ap (λ name. member_named name all_setbacks) (raises s) ∙ member_named_lem s

  pub read_values-cons :
      (setback : ThaSetback) (value : Option ℕ) (rest : Dict (Option ℕ))
      (values : Map ThaSetback (Option ℕ))
      → read_values upper ((lower_name setback, value) ∷ rest) values
        ≡ read_values upper rest (insert setback value values)
  unfolding read_values store_known
  read_values-cons setback value rest values =
      ap (λ o. read_values upper rest (store_known o value values)) (setback_from_key_lem setback)

  read_present :
      (v : SetpointValues) (s setback : ThaSetback) (setbacks : List ThaSetback)
      (values : Map ThaSetback (Option ℕ)) (held : Option (Option ℕ))
      → lookup setback v.values ≡ held
      → same_setback setback current_setback ≡ false
      → ((before : Map ThaSetback (Option ℕ))
          → lookup s (read_values upper (named_values v setbacks) before)
            ≡ expected
                (same_setback s current_setback)
                (is_of s setbacks)
                (lookup s v.values)
                (lookup s before))
      → lookup s (read_values upper (add_present setback held (named_values v setbacks)) values)
        ≡ expected
            (same_setback s current_setback)
            (is_of s (setback ∷ setbacks))
            (lookup s v.values)
            (lookup s values)
  unfolding add_present is_of first_of
  read_present v s setback setbacks values none h e rest =
      elim (Bool-cases (same_setback setback s)) [
        | inl d ↦
            ground (
              arith,
              ap (λ x. lookup x v.values) ((same_setback_iff setback s).0 d),
              h,
              rest values,
            )
        | inr d ↦ ground (arith, d, rest values)
      ]
  read_present v s setback setbacks values (some value) h e rest =
      ap (lookup s) (read_values-cons setback value (named_values v setbacks) values)
      ∙ rest (insert setback value values)
      ∙ elim (Bool-cases (same_setback setback s)) [
        | inl d ↦ ground (
          arith,
          ap (λ x. lookup x v.values) ((same_setback_iff setback s).0 d),
          ap (λ x. same_setback x current_setback) ((same_setback_iff setback s).0 d),
          d,
          e,
          h,
          lookup-insert setback s value values,
        )
        | inr d ↦ ground (arith, d, lookup-insert setback s value values)
      ]

  pub read_named :
      (v : SetpointValues) (s : ThaSetback) (setbacks : List ThaSetback)
      (values : Map ThaSetback (Option ℕ))
      → lookup s (read_values upper (named_values v setbacks) values)
        ≡ expected
            (same_setback s current_setback)
            (is_of s setbacks)
            (lookup s v.values)
            (lookup s values)
  unfolding read_values named_values is_of
  read_named v s [] values = ground arith
  read_named v s (setback ∷ setbacks) values =
      elim (Bool-cases (same_setback setback current_setback)) [
        | inl e ↦ ground (
          arith,
          e,
          read_named v s setbacks values,
          same_setback_iff setback current_setback,
          same_setback_iff setback s,
          same_setback_iff s current_setback,
        )
        | inr e ↦
            ap
              (λ b. lookup s (
                read_values upper
                  (if b
                    then named_values v setbacks
                    else add_present setback (lookup setback v.values) (named_values v setbacks))
                  values))
              e
            ∙ read_present v s setback setbacks values (lookup setback v.values) refl e
                (read_named v s setbacks)
      ]
