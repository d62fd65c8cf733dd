-- ===== src/Models/Setpoints/Raw.antt =====
-- The JSON shape of `SetpointValues` in src/tekmar_482/models.py: `as_dict` and `from_raw`.
pub mod Loop
pub mod Named
pub mod RoundTrip
use tekmar.Prelude.{ℕ, Bool, false, ◌||◌, Option, none, some, List, [], ◌∷◌, String, if◌then◌else◌}
use tekmar.Prelude.Dict.{text_key, Map, Dict, lookup, insert}
use tekmar.Prelude.Texts.{str_eq}
use tekmar.Models.Setback.{
  ThaSetback, wake_4, unocc_4, occ_4, sleep_4, occ_2, unocc_2, away, current_setback, all_setbacks,
  same_setback, setback_key,
}
use tekmar.Models.Setpoints.{SetpointValues, has_key, observed_for, current, from_mapping}

-- `_RawSnapshotValue`.
pub data RawValue : Type 0 where
  raw_int : Option ℕ → RawValue
  raw_dict : Dict (Option ℕ) → RawValue

-- `setback.name`.
unfoldable pub member_name : ThaSetback → String
member_name wake_4 = "WAKE_4"
member_name unocc_4 = "UNOCC_4"
member_name occ_4 = "OCC_4"
member_name sleep_4 = "SLEEP_4"
member_name occ_2 = "OCC_2"
member_name unocc_2 = "UNOCC_2"
member_name away = "AWAY"
member_name current_setback = "CURRENT"

-- `setback.name.lower()`.
unfoldable pub lower_name : ThaSetback → String
lower_name wake_4 = "wake_4"
lower_name unocc_4 = "unocc_4"
lower_name occ_4 = "occ_4"
lower_name sleep_4 = "sleep_4"
lower_name occ_2 = "occ_2"
lower_name unocc_2 = "unocc_2"
lower_name away = "away"
lower_name current_setback = "current"

add_present : ThaSetback → Option (Option ℕ) → Dict (Option ℕ) → Dict (Option ℕ)
unfolding lower_name
add_present setback none rest = rest
add_present setback (some value) rest = (lower_name setback, value) ∷ rest

-- The loop of `as_dict`. The names of the members differ, so each assignment adds a key at the end.
pub named_values : SetpointValues → List ThaSetback → Dict (Option ℕ)
unfolding add_present same_setback
named_values s [] = []
named_values s (setback ∷ setbacks) =
    let rest = named_values s setbacks in
    if same_setback setback current_setback
    then rest
    else add_present setback (lookup setback s.values) rest

active_in : Option ThaSetback → Map ThaSetback (Option ℕ) → Bool
unfolding has_key same_setback
active_in none values = false
active_in (some active) values =
    if same_setback active current_setback then false else has_key (lookup active values)

-- The condition of the first `if` of `as_dict`.
knows_current : SetpointValues → Bool
unfolding active_in has_key
knows_current s = has_key (lookup current_setback s.values) || active_in s.active_setback s.values

unfoldable pub as_dict : SetpointValues → Dict (Option ℕ)
unfolding knows_current named_values current lower_name
as_dict s =
    let rest = named_values s all_setbacks in
    if knows_current s then (lower_name current_setback, current s) ∷ rest else rest

-- `ThaSetback[name]`, or None for a KeyError.
member_named : String → List ThaSetback → Option ThaSetback
unfolding member_name
member_named name [] = none
member_named name (setback ∷ setbacks) =
    let later = member_named name setbacks in
    if str_eq (member_name setback) name then some setback else later

store_known : Option ThaSetback → Option ℕ → Map ThaSetback (Option ℕ) → Map ThaSetback (Option ℕ)
store_known none value values = values
store_known (some setback) value values = insert setback value values

-- `upper` is `str.upper`.
module _ (upper : String → String) where
  -- `_setback_from_key`, of a key that is a text. `"CURRENT"` is the name of a member too, so one
  -- search does for both tests.
  unfoldable pub setback_from_key : String → Option ThaSetback
  unfolding member_named
  setback_from_key key = member_named (upper key) all_setbacks

  -- The loop of `from_raw`; `_raw_int` keeps the numbers and the None that a value is.
  pub read_values : Dict (Option ℕ) → Map ThaSetback (Option ℕ) → Map ThaSetback (Option ℕ)
  unfolding setback_from_key store_known
  read_values [] values = values
  read_values ((key, value) ∷ entries) values =
      read_values entries (store_known (setback_from_key key) value values)

  unfoldable pub from_raw : RawValue → Option ThaSetback → SetpointValues
  unfolding read_values from_mapping observed_for
  from_raw (raw_int value) active = record {
    values = [];
    active_setback = active;
    current_observed_setback = observed_for active;
  }
  from_raw (raw_dict entries) active = from_mapping (read_values entries []) active
