-- ===== src/Trpc/Lookup/Names.antt =====
-- The name and id tables of src/tekmar_482/trpc.py are inverse to one another.
use tekmar.Prelude.{
  Bool-cases, Option, ℕ, ◌≡◌, ◌↔◌, ◌⊎◌, inl, inr, refl, ap, ◌∙◌, sym, String, none, some, List, [],
  ◌∷◌, All, arith,
}
use tekmar.Prelude.Dict.{text_key, Dict, lookup}
use mathlib.Core.Path.{subst₂}
use tekmar.Prelude.Texts.{eq_iff, str_eq}
use tekmar.Exceptions.{TekmarError, unknown_method, ok}
use tekmar.Trpc.Methods.{TrpcMethod, null_method, outdoor_temp, method_id, all_methods, spec_of}
use tekmar.Trpc.Lookup.{found_or, find_method, method_of_id, method_ids, method_from_name}

abbrev OneOf : String → List String → Type 0
OneOf name [] = ⊥
OneOf name (x ∷ xs) = (name ≡ x) ⊎ OneOf name xs

-- The display name of a method, or one of its aliases.
abbrev pub IsNameOf : TrpcMethod → String → Type 0
IsNameOf m name = (name ≡ (spec_of m).name) ⊎ OneOf name (spec_of m).aliases

find_method_sound :
    (value : ℕ) (ms : List TrpcMethod) (m : TrpcMethod)
    → find_method value ms ≡ some m
    → method_id m ≡ value
unfolding find_method
find_method_sound value [] m h = cc
find_method_sound value (x ∷ ms) m h = ground (arith, find_method_sound value ms m)

method_of_id-method_id : (m : TrpcMethod) → method_of_id (method_id m) ≡ some m
unfolding method_of_id
method_of_id-method_id null_method = refl
method_of_id-method_id _ = refl

method_of_id_sound :
    (value : ℕ) (m : TrpcMethod) → method_of_id value ≡ some m → method_id m ≡ value
unfolding method_of_id
method_of_id_sound value m = find_method_sound value all_methods m

-- `TrpcMethod(value)` is the method with this id, and finds every method by its id.
pub method_of_id_iff :
    (value : ℕ) (m : TrpcMethod) → (method_of_id value ≡ some m) ↔ (method_id m ≡ value)
method_of_id_iff value m =
    (method_of_id_sound value m, λ e. ap method_of_id (sym e) ∙ method_of_id-method_id m)

some_eq {ℓ} : {A : Type ℓ} {a b : A} → some a ≡ some b → a ≡ b
some_eq h = cc

-- A lookup has a property that all entries of the dict have.
lookup-All {ℓ κ} :
    {V : Type ℓ} (P : String → V → Type κ) (k : String) (d : Dict V) (v : V)
    → All (λ e. P e.0 e.1) d
    → lookup k d ≡ some v
    → P k v
unfolding lookup
lookup-All P k [] v a h = absurd (cc h)
lookup-All P k ((j, w) ∷ d) v a h = elim (Bool-cases (str_eq j k)) [
  | inl e ↦ subst₂ P ((eq_iff j k).0 e) (some_eq (rw e at h)) a.0
  | inr e ↦ lookup-All P k d v a.1 (rw e at h)
]

name-method_from_name : (m : TrpcMethod) → method_from_name (spec_of m).name ≡ ok m
unfolding method_from_name spec_of
name-method_from_name null_method = refl
name-method_from_name _ = refl

alias-method_from_name :
    (m : TrpcMethod) (name : String) → OneOf name (spec_of m).aliases → method_from_name name ≡ ok m
unfolding method_from_name spec_of
alias-method_from_name outdoor_temp name (inl e) = rw e
alias-method_from_name outdoor_temp name (inr h) = absurd h
alias-method_from_name _ name h = absurd h

entries-IsNameOf : All (λ e. IsNameOf e.1 e.0) method_ids
unfolding method_ids spec_of
entries-IsNameOf = (
  inl refl,
  (
    inl refl,
    (
      inl refl,
      (
        inl refl,
        (
          inl refl,
          (
            inl refl,
            (
              inl refl,
              (
                inl refl,
                (
                  inl refl,
                  (
                    inl refl,
                    (
                      inl refl,
                      (
                        inl refl,
                        (
                          inl refl,
                          (
                            inl refl,
                            (
                              inl refl,
                              (
                                inl refl,
                                (
                                  inl refl,
                                  (
                                    inl refl,
                                    (
                                      inl refl,
                                      (
                                        inl refl,
                                        (
                                          inl refl,
                                          (
                                            inl refl,
                                            (
                                              inl refl,
                                              (
                                                inl refl,
                                                (
                                                  inl refl,
                                                  (
                                                    inl refl,
                                                    (inl refl, (inl refl, (inr (inl refl), tt))),
                                                  ),
                                                ),
                                              ),
                                            ),
                                          ),
                                        ),
                                      ),
                                    ),
                                  ),
                                ),
                              ),
                            ),
                          ),
                        ),
                      ),
                    ),
                  ),
                ),
              ),
            ),
          ),
        ),
      ),
    ),
  ),
)

found_or-eq-some :
    (e : TekmarError) (o : Option TrpcMethod) (m : TrpcMethod) → found_or e o ≡ ok m → o ≡ some m
unfolding found_or
found_or-eq-some e none m h = cc
found_or-eq-some e (some n) m h = cc

found :
    (m : TrpcMethod) (name : String)
    → method_from_name name ≡ ok m
    → lookup name method_ids ≡ some m
unfolding method_from_name
found m name h = found_or-eq-some unknown_method (lookup name method_ids) m h

-- `method_from_name` finds exactly the display name and the aliases of each method.
pub method_from_name_iff :
    (m : TrpcMethod) (name : String) → (method_from_name name ≡ ok m) ↔ IsNameOf m name
method_from_name_iff m name = (
  (λ h. lookup-All (λ k v. IsNameOf v k) name method_ids m entries-IsNameOf (found m name h)),
  elim [ inl e ↦ rw e (name-method_from_name m) | inr h ↦ alias-method_from_name m name h ],
)
