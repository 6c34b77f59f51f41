-- ===== src/Schema/Objects.antt =====
-- What it takes for an object to pass `validate`.
use hermes_event_server.Base.{
  String, ◌≡◌, refl, sym, ◌∙◌, ◌↔◌, inl, inr, Bool, false, not, ◌&&◌, Option, some, List, [], ◌∷◌,
  arith, All, Option-cases, any,
}
use hermes_event_server.Base.Equality.{string_eq, nat_eq, pair_eq}
use hermes_event_server.Json.{Json, Fields, dict, get_field, has_field}
use hermes_event_server.Schema.{
  Verdict, accepted, ◌then_check◌, setting, check_type, check_const, check_enum, required_names,
  run_checks, is_closed, undeclared, check_object, check_value, validate, properties,
}

abbrev Checks : Type 0
Checks = List (String × (Json → Verdict))

-- A declared property that the value has passes its own check.
abbrev pub Passes : Fields → String × (Json → Verdict) → Type 0
Passes value c = (v : Json) → get_field c.0 value ≡ some v → c.1 v ≡ accepted

run_checks_sound :
    (known : Checks) (value : Fields) → run_checks known value ≡ accepted → All (Passes value) known
unfolding run_checks
run_checks_sound [] value h = tt
run_checks_sound ((name, check) ∷ rest) value h =
    (λ v e. ground (arith, e), run_checks_sound rest value (ground arith))

run_checks_complete :
    (known : Checks) (value : Fields) → All (Passes value) known → run_checks known value ≡ accepted
unfolding run_checks
run_checks_complete [] value h = refl
run_checks_complete ((name, check) ∷ rest) value h = elim (Option-cases (get_field name value)) [
  | inl e ↦ rw (e, run_checks_complete rest value h.1)
  | inr (v, e) ↦ rw (e, h.0 v e, run_checks_complete rest value h.1)
]

-- An object that a schema admits: its type, `const` and `enum` fit, it has every required field,
-- a closed schema declares every field, and each declared property that it has passes its check.
pub record Admits (matches : String → String → Option Bool) (schema value : Fields) : Type 0 where
  pub of_type : check_type (setting "type" schema) (dict value) ≡ accepted
  pub of_const : check_const (get_field "const" schema) (dict value) ≡ accepted
  pub of_enum : check_enum (get_field "enum" schema) (dict value) ≡ accepted
  pub names : List String
  pub required : required_names (get_field "required" schema) ≡ some names
  pub present : any (λ name. not (has_field name value)) names ≡ false
  pub known : Checks
  pub declared : properties matches schema ≡ some known
  pub closed : is_closed (get_field "additionalProperties" schema) && undeclared value known ≡ false
  pub pass : All (Passes value) known

module _ (matches : String → String → Option Bool) (schema value : Fields) where
  validate-dict : validate matches (dict schema) (dict value) ≡ (
      check_type (setting "type" schema) (dict value)
      then_check check_const (get_field "const" schema) (dict value)
      then_check check_enum (get_field "enum" schema) (dict value)
      then_check check_object schema (properties matches schema) value)
  unfolding validate check_value
  validate-dict = refl

  admit_complete :
      Admits matches schema value → validate matches (dict schema) (dict value) ≡ accepted
  unfolding check_object
  admit_complete a =
      validate-dict
      ∙ ground (
        arith,
        a.of_type,
        a.of_const,
        a.of_enum,
        a.required,
        a.present,
        a.declared,
        a.closed,
        run_checks_complete a.known value a.pass,
      )

  object_parts :
      check_object schema (properties matches schema) value ≡ accepted
      → (names : List String) × (known : Checks) × (required_names (get_field "required" schema)
          ≡ some names)
        × (properties matches schema ≡ some known)
  unfolding check_object
  object_parts h = elim (Option-cases (required_names (get_field "required" schema))) [
    | inl e ↦ absurd (ground arith)
    | inr (names, e) ↦ elim (Option-cases (properties matches schema)) [
      | inl f ↦ absurd (ground arith)
      | inr (known, f) ↦ (names, known, e, f)
    ]
  ]

  admit_sound : validate matches (dict schema) (dict value) ≡ accepted → Admits matches schema value
  unfolding check_object
  admit_sound h =
      let h' = sym validate-dict ∙ h in
      let (names, known, e, f) = object_parts (unfold check_object in ground arith) in
      record {
        of_type = ground arith;
        of_const = ground arith;
        of_enum = ground arith;
        names = names;
        required = e;
        present = ground arith;
        known = known;
        declared = f;
        closed = ground arith;
        pass = run_checks_sound known value (ground arith);
      }

-- `validate` accepts an object exactly if the schema admits it.
pub validate_object :
    (matches : String → String → Option Bool) (schema value : Fields)
    → (validate matches (dict schema) (dict value) ≡ accepted) ↔ Admits matches schema value
validate_object matches schema value =
    (admit_sound matches schema value, admit_complete matches schema value)
