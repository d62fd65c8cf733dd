-- ===== src/Models/Setpoints/Raw/RoundTrip.antt =====
-- Values in JSON shape, read back (src/tekmar_482/models.py, `as_dict` and `from_raw`).
use tekmar.Prelude.{
  ◌≡◌, refl, ap, ◌∙◌, Bool-cases, false, Option, none, some, inl, inr, [], ◌∷◌, String,
  if◌then◌else◌, arith,
}
use tekmar.Prelude.Dict.{text_key, lookup, insert, lookup-insert}
use tekmar.Models.Setback.{
  ThaSetback, current_setback, all_setbacks, same_setback, same_setback_iff, setback_key,
}
use tekmar.Models.Setpoints.{
  SetpointValues, has_key, observed_for, get_value, get_value_in, current, current_for,
  active_current, is_setback, value_or, get_setpoint,
}
use tekmar.Models.Setpoints.Reading.{same_self}
use tekmar.Models.Setpoints.Raw.{
  raw_dict, lower_name, named_values, knows_current, active_in, as_dict, read_values, from_raw,
}
use tekmar.Models.Setpoints.Raw.Named.{lower_name-same, lookup-named_values}
use tekmar.Models.Setpoints.Raw.Loop.{
  RaisesNames, is_of_all, first_of, first_of-none, read_values-cons, read_named,
}

module _ (upper : String → String) (raises : RaisesNames upper) where
  -- What `from_raw` reads of `as_dict`.
  lookup-read_values :
      (v : SetpointValues) (s : ThaSetback)
      → lookup s (read_values upper (as_dict v) []) ≡ (
          if same_setback s current_setback
          then (if knows_current v then some (current v) else none)
          else lookup s v.values)
  unfolding as_dict lookup first_of
  lookup-read_values v s = elim (Bool-cases (knows_current v)) [
    | inl e ↦
        ap
          (λ b. lookup s (
            read_values upper
              (if b
                then (lower_name current_setback, current v) ∷ named_values v all_setbacks
                else named_values v all_setbacks)
              []))
          e
        ∙ ap (lookup s) (
            read_values-cons upper raises current_setback (current v) (named_values v all_setbacks)
              [])
        ∙ read_named upper raises v s all_setbacks (insert current_setback (current v) [])
        ∙ ground (
          arith,
          e,
          is_of_all s,
          first_of-none (lookup s v.values),
          lookup-insert current_setback s (current v) [],
          same_setback_iff current_setback s,
          same_setback_iff s current_setback,
        )
    | inr e ↦
        ap
          (λ b. lookup s (
            read_values upper
              (if b
                then (lower_name current_setback, current v) ∷ named_values v all_setbacks
                else named_values v all_setbacks)
              []))
          e
        ∙ read_named upper raises v s all_setbacks []
        ∙ ground (arith, e, is_of_all s, first_of-none (lookup s v.values))
  ]

  current-from_raw :
      (v : SetpointValues) (active : Option ThaSetback)
      → v.active_setback ≡ active
      → current (from_raw upper (raw_dict (as_dict v)) active) ≡ current_for active v
  unfolding current from_raw current_for active_current observed_for get_value get_value_in
      knows_current active_in has_key is_setback value_or
  current-from_raw v none e = ground (arith, e, lookup-read_values v current_setback)
  current-from_raw v (some active) e = elim (Bool-cases (same_setback active current_setback)) [
    | inl c ↦ ground (arith, c, e, lookup-read_values v current_setback, same_self current_setback)
    | inr c ↦ ground (
      arith,
      c,
      e,
      lookup-read_values v current_setback,
      lookup-read_values v active,
      same_self active,
      same_self current_setback,
    )
  ]

  lookup-as_dict :
      (v : SetpointValues) (s : ThaSetback)
      → lookup (lower_name s) (as_dict v) ≡ (
          if same_setback s current_setback
          then (if knows_current v then some (current v) else none)
          else lookup s v.values)
  unfolding as_dict lookup first_of
  lookup-as_dict v s = ground (
    arith,
    is_of_all s,
    first_of-none (lookup s v.values),
    lookup-named_values upper raises v s all_setbacks,
    lower_name-same upper raises current_setback s,
    same_setback_iff current_setback s,
    same_setback_iff s current_setback,
  )

  current-unknown :
      (v : SetpointValues) (active : Option ThaSetback)
      → v.active_setback ≡ active
      → knows_current v ≡ false
      → current_for active v ≡ none
  unfolding current_for active_current get_value get_value_in knows_current active_in has_key
      is_setback value_or
  current-unknown v none e h = ground (arith, e, h)
  current-unknown v (some active) e h = ground (arith, e, h)

  get_setpoint-as_dict :
      (v : SetpointValues) (s : ThaSetback)
      → get_value_in (lookup (lower_name s) (as_dict v)) ≡ get_setpoint v s
  unfolding get_setpoint get_value get_value_in current
  get_setpoint-as_dict v s =
      ground (arith, lookup-as_dict v s, current-unknown v v.active_setback refl)

  -- `as_dict` has under the name of each setback, in small letters, the value that the setpoints
  -- read there, and nothing or None where they read None. What `from_raw` makes of it with the same
  -- active setback has that active setback and reads the same at every setback, CURRENT included,
  -- if `str.upper` makes the name of each member of its name in small letters.
  pub from_raw-as_dict :
      (v : SetpointValues) (s : ThaSetback)
      → (get_value_in (lookup (lower_name s) (as_dict v)) ≡ get_setpoint v s)
        × ((from_raw upper (raw_dict (as_dict v)) v.active_setback).active_setback
            ≡ v.active_setback)
        × (get_setpoint (from_raw upper (raw_dict (as_dict v)) v.active_setback) s
            ≡ get_setpoint v s)
  unfolding get_setpoint get_value from_raw current
  from_raw-as_dict v s = (
    get_setpoint-as_dict v s,
    refl,
    elim (Bool-cases (same_setback s current_setback)) [
      | inl e ↦ ground (arith, e, current-from_raw v v.active_setback refl)
      | inr e ↦ ground (arith, e, lookup-read_values v s)
    ],
  )
