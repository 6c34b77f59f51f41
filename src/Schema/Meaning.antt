-- ===== src/Schema/Meaning.antt =====
-- What a schema says of an object, without the validator's own functions: only `json_eq`, Python's
-- `==`, and for each declared property the validation of its value.
use hermes_event_server.Base.{String, ◌≡◌, sym, subst, ◌∙◌, ◌↔◌, Bool, false, ◌&&◌, Option, All}
use hermes_event_server.Base.Equality.{string_eq, nat_eq, pair_eq}
use hermes_event_server.Json.{Fields, dict, get_field}
use hermes_event_server.Schema.{accepted, is_closed, undeclared, validate, named_checks}
use hermes_event_server.Schema.Objects.{Admits, Passes, validate_object}
use hermes_event_server.Schema.Types.{FitsType, check_type_sound, check_type_complete}
use hermes_event_server.Schema.Constraints.{
  FitsConst, FitsEnum, HasRequired, check_const_sound, check_const_complete, check_enum_sound,
  check_enum_complete, required_sound, required_complete,
}
use hermes_event_server.Schema.Declared.{
  AreDeclared, IsWithin, AreValid, properties_under, declared_sound, declared_complete,
  within_sound, within_complete, valid_sound, valid_complete,
}

module _ (matches : String → String → Option Bool) where
  pub record Conforms (schema value : Fields) : Type 0 where
    pub of_type : FitsType (get_field "type" schema)
    pub of_const : FitsConst (get_field "const" schema) value
    pub of_enum : FitsEnum (get_field "enum" schema) value
    pub required : HasRequired (get_field "required" schema) value
    pub declared : Fields
    pub properties : AreDeclared (get_field "properties" schema) declared
    pub within : IsWithin (get_field "additionalProperties" schema) declared value
    pub valid : AreValid matches declared value

-- An object is accepted by a schema that is an object exactly if: `type` is absent, null, "object" or
-- a list of texts that names "object" before any unknown name; `const`, if there is one, equals the
-- object, and `enum`, if there is one, is a list with an equal element, by Python's `==`; `required`,
-- if there is one, is a list of names of fields that the object has; `properties`, if there is one, is
-- an object; with `additionalProperties` false every field is declared there; and the value of each
-- declared property that the object has is accepted by the schema declared for it.
pub validate-Conforms :
    (matches : String → String → Option Bool) (schema value : Fields)
    → (validate matches (dict schema) (dict value) ≡ accepted) ↔ Conforms matches schema value
validate-Conforms matches schema value = (
  λ h.
      let a : Admits matches schema value = (validate_object matches schema value).0 h in
      let (declared, are, same) =
        declared_sound matches (get_field "properties" schema) a.known
          (sym (properties_under matches schema) ∙ a.declared) in
      record {
        of_type = check_type_sound (get_field "type" schema) value a.of_type;
        of_const = check_const_sound (get_field "const" schema) value a.of_const;
        of_enum = check_enum_sound (get_field "enum" schema) value a.of_enum;
        required = required_sound (get_field "required" schema) value a.names a.required a.present;
        declared = declared;
        properties = are;
        within = within_sound matches (get_field "additionalProperties" schema) declared value (
            subst
              (λ known.
                is_closed (get_field "additionalProperties" schema) && undeclared value known
                ≡ false)
              (sym same) a.closed);
        valid = valid_sound matches declared value (subst (All (Passes value)) (sym same) a.pass);
      },
  λ c.
      let (names, required, present) =
        required_complete (get_field "required" schema) value c.required in
      (validate_object matches schema value).1 (record {
        of_type = check_type_complete (get_field "type" schema) value c.of_type;
        of_const = check_const_complete (get_field "const" schema) value c.of_const;
        of_enum = check_enum_complete (get_field "enum" schema) value c.of_enum;
        names = names;
        required = required;
        present = present;
        known = named_checks matches c.declared;
        declared =
            properties_under matches schema
            ∙ declared_complete matches (get_field "properties" schema) c.declared c.properties;
        closed =
            within_complete matches (get_field "additionalProperties" schema) c.declared value
              c.within;
        pass = valid_complete matches c.declared value c.valid;
      }),
)
