-- ===== src/Schema/Declared.antt =====
-- `properties` and `additionalProperties`, for an object: what they say, and that the checks decide it.
use hermes_event_server.Base.{
  String, ◌≡◌, refl, sym, ap, subst, ◌∙◌, inl, inr, Bool, true, false, not, ◌&&◌, ◌||◌, Option,
  none, some, List, [], ◌∷◌, map, arith, All, get_or, Bool-cases, any, if◌then◌else◌,
}
use hermes_event_server.Base.Equality.{◌==◌, contains, string_eq, nat_eq, pair_eq}
use hermes_event_server.Json.{
  Json, Fields, null, bool, int, float, str, list, dict, end, field, get_field, has_field, keys,
}
use hermes_event_server.Schema.{
  Verdict, accepted, is_closed, undeclared, validate, properties, child_checks, named_checks,
}
use hermes_event_server.Schema.Objects.{Passes}

-- `properties`: absent, or an object, of schemas by name.
abbrev pub AreDeclared : Option Json → Fields → Type 0
AreDeclared none declared = declared ≡ end
AreDeclared (some (dict fs)) declared = declared ≡ fs
AreDeclared (some _) declared = true ≡ false

-- With `additionalProperties` false every field of the object is declared.
abbrev pub IsWithin : Option Json → Fields → Fields → Type 0
IsWithin (some (bool false)) declared value = All (λ k. has_field k declared ≡ true) (keys value)
IsWithin (some _) declared value = Unit
IsWithin none declared value = Unit

some_same : {A : Type 0} (a b : A) → some a ≡ some b → a ≡ b
some_same a b h = ap (λ o. get_or o a) h

module _ (matches : String → String → Option Bool) where
  abbrev pub FitsField : Option Json → Json → Type 0
  FitsField none schema = Unit
  FitsField (some v) schema = validate matches schema v ≡ accepted

  -- Each declared property that the object has is valid for its own schema.
  abbrev pub AreValid : Fields → Fields → Type 0
  AreValid end value = Unit
  AreValid (field name schema rest) value =
      FitsField (get_field name value) schema × AreValid rest value

  abbrev pub Checks : Type 0
  Checks = List (String × (Json → Verdict))

  abbrev pub checks_under : Option Json → Option Checks
  checks_under none = some []
  checks_under (some v) = child_checks matches v

  -- The checks are those of the first field called "properties".
  pub properties_under :
      (schema : Fields) → properties matches schema ≡ checks_under (get_field "properties" schema)
  unfolding properties
  properties_under end = refl
  properties_under (field k v rest) = elim (Bool-cases (k == "properties")) [
    | inl q ↦ rw q refl
    | inr q ↦ rw q (properties_under rest)
  ]

  -- The object of the declarations.
  pub declared_sound :
      (o : Option Json) (known : Checks)
      → checks_under o ≡ some known
      → (declared : Fields) × AreDeclared o declared × (named_checks matches declared ≡ known)
  unfolding child_checks named_checks
  declared_sound none known h = (end, refl, ground (arith, h))
  declared_sound (some (dict fs)) known h = (fs, refl, some_same (named_checks matches fs) known h)
  declared_sound (some null) known h = absurd (ground (arith, h))
  declared_sound (some (bool b)) known h = absurd (ground (arith, h))
  declared_sound (some (int n)) known h = absurd (ground (arith, h))
  declared_sound (some (float m k)) known h = absurd (ground (arith, h))
  declared_sound (some (str s)) known h = absurd (ground (arith, h))
  declared_sound (some (list xs)) known h = absurd (ground (arith, h))

  pub declared_complete :
      (o : Option Json) (declared : Fields)
      → AreDeclared o declared
      → checks_under o ≡ some (named_checks matches declared)
  unfolding child_checks named_checks
  declared_complete none declared h = rw h refl
  declared_complete (some (dict fs)) declared h = rw h refl
  declared_complete (some null) declared h = absurd (ground (arith, h))
  declared_complete (some (bool b)) declared h = absurd (ground (arith, h))
  declared_complete (some (int n)) declared h = absurd (ground (arith, h))
  declared_complete (some (float m k)) declared h = absurd (ground (arith, h))
  declared_complete (some (str s)) declared h = absurd (ground (arith, h))
  declared_complete (some (list xs)) declared h = absurd (ground (arith, h))

  has_some_first :
      (b : Bool) (v : Json) (o : Option Json)
      → (elim (if b then some v else o) [ none ↦ false | some w ↦ true ])
        ≡ b || (elim o [ none ↦ false | some w ↦ true ])
  has_some_first true v o = refl
  has_some_first false v o = refl

  has_field-field :
      (j : String) (v : Json) (rest : Fields) (k : String)
      → has_field k (field j v rest) ≡ (j == k) || has_field k rest
  has_field-field j v rest k = has_some_first (j == k) v (get_field k rest)

  contains-named_checks :
      (declared : Fields) (k : String)
      → contains (map (λ c. c.0) (named_checks matches declared)) k ≡ has_field k declared
  unfolding named_checks
  contains-named_checks end k = refl
  contains-named_checks (field j v rest) k =
      ap (λ b. (j == k) || b) (contains-named_checks rest k) ∙ sym (has_field-field j v rest k)

  keys_sound :
      (declared : Fields) (ks : List String)
      → any (λ k. not (contains (map (λ c. c.0) (named_checks matches declared)) k)) ks ≡ false
      → All (λ k. has_field k declared ≡ true) ks
  keys_sound declared [] h = tt
  keys_sound declared (k ∷ ks) h = (
    sym (contains-named_checks declared k) ∙ ground (arith, h),
    keys_sound declared ks (ground (arith, h)),
  )

  keys_complete :
      (declared : Fields) (ks : List String)
      → All (λ k. has_field k declared ≡ true) ks
      → any (λ k. not (contains (map (λ c. c.0) (named_checks matches declared)) k)) ks ≡ false
  keys_complete declared [] h = refl
  keys_complete declared (k ∷ ks) h =
      let found : contains (map (λ c. c.0) (named_checks matches declared)) k ≡ true =
        contains-named_checks declared k ∙ h.0 in
      ground (arith, found, keys_complete declared ks h.1)

  pub within_sound :
      (o : Option Json) (declared value : Fields)
      → is_closed o && undeclared value (named_checks matches declared) ≡ false
      → IsWithin o declared value
  within_sound none declared value h = tt
  within_sound (some (bool false)) declared value h = keys_sound declared (keys value) h
  within_sound (some (bool true)) declared value h = tt
  within_sound (some null) declared value h = tt
  within_sound (some (int n)) declared value h = tt
  within_sound (some (float m k)) declared value h = tt
  within_sound (some (str s)) declared value h = tt
  within_sound (some (list xs)) declared value h = tt
  within_sound (some (dict fs)) declared value h = tt

  pub within_complete :
      (o : Option Json) (declared value : Fields)
      → IsWithin o declared value
      → is_closed o && undeclared value (named_checks matches declared) ≡ false
  within_complete none declared value h = refl
  within_complete (some (bool false)) declared value h = keys_complete declared (keys value) h
  within_complete (some (bool true)) declared value h = refl
  within_complete (some null) declared value h = refl
  within_complete (some (int n)) declared value h = refl
  within_complete (some (float m k)) declared value h = refl
  within_complete (some (str s)) declared value h = refl
  within_complete (some (list xs)) declared value h = refl
  within_complete (some (dict fs)) declared value h = refl

  fits_found :
      (o : Option Json) (schema : Json)
      → ((v : Json) → o ≡ some v → validate matches schema v ≡ accepted)
      → FitsField o schema
  fits_found none schema h = tt
  fits_found (some v) schema h = h v refl

  pub valid_sound :
      (declared value : Fields)
      → All (Passes value) (named_checks matches declared)
      → AreValid declared value
  unfolding named_checks
  valid_sound end value h = tt
  valid_sound (field name schema rest) value h =
      (fits_found (get_field name value) schema h.0, valid_sound rest value h.1)

  pub valid_complete :
      (declared value : Fields)
      → AreValid declared value
      → All (Passes value) (named_checks matches declared)
  unfolding named_checks
  valid_complete end value h = tt
  valid_complete (field name schema rest) value h =
      (λ v e. subst (λ o. FitsField o schema) e h.0, valid_complete rest value h.1)
