-- ===== src/Schema.antt =====
-- src/eventserver/core/schema_validation.py: the JSON Schema subset for event payloads.
-- `matches` stands for `re.search(pattern, value) is not None`; `none` is an `re.error`.
-- The recursion follows the schema: `child_checks` and `item_check` hold the checks of its parts.
pub mod Equality
pub mod Objects
pub mod Types
pub mod Constraints
pub mod Declared
pub mod Meaning
use Prim.Native.String
use hermes_event_server.Base.{
  ℕ, zero, suc, ◌+◌, ◌-◌, ◌*◌, ◌/◌, ◌%◌, ◌^◌, ◌≤◌, ◌<◌, min, max, String, ◌≡◌, refl, sym, ap, subst,
  ◌∙◌, ◌≢◌, ◌↔◌, ◌⊎◌, inl, inr, Bool, true, false, not, ◌&&◌, ◌||◌, Option, none, some, List, [],
  ◌∷◌, ◌++◌, map, arith, All, is_some, get_or, ltb, leb, nat_beq, if◌then◌else◌, ltb→lt, leb→le,
  Bool-cases, Option-cases, take, select, any, insert_by, sort_by, length, length-append,
  length-take-le, All-take, All-append, All-select, All-select_of, All-insert_by, All-sort_by,
  All-map2,
}
use hermes_event_server.Base.Equality.{
  Eq, ◌==◌, contains, string_eq, nat_eq, pair_eq, string_discrete,
}
use hermes_event_server.Base.Table.{
  get, put, delete, get-put, get-put_self, get-put_ne, get-delete, get_absent, key-get, IsKeyed,
  Found, put-IsKeyed, delete-IsKeyed, select-IsKeyed, take-IsKeyed, sort_by-IsKeyed, rows-Found,
  All-put, All-get, All-delete,
}
use hermes_event_server.Base.Action.{
  Error, lease_conflict_error, authorization_error, last_admin_error, value_error,
  event_not_found_error, match_key_error, invalid_match_key_error, publication_error,
  pairing_code_error, first_admin_bootstrap_error, lookup_error, key_error, runtime_error,
  integrity_error, Result, ok, err, Action, pure, raise, lift, gets, or_raise, modify, raise_if,
  ◌>>=◌, ◌>>◌,
}
use hermes_event_server.Json.{
  Json, Items, Fields, null, bool, int, float, str, list, dict, nil, cons, end, field, get_field,
  has_field, item_list, count_items, keys, str_items, optional_str, number_lt, number_eq, as_number,
}
use hermes_event_server.Models.{
  Time, seconds, Role, user, admin, AccountStatus, active, blocked, User, UserPermission, EventType,
  EventPublisher, EventAlias, ProviderInstance, ProviderCheckpoint, ObservationRecord,
  EventOccurrence, Subscription, DeliveryStatus, pending, leased, retry, sent, dead, Delivery,
  PairingCode, AuditLog, Observation, DomainEvent, DeliveryMessage, model_dump, Database,
  empty_database, user_key, permission_key, event_type_key, alias_key, instance_key, checkpoint_key,
  subscription_key, delivery_key, pairing_key, publisher_key,
}
use hermes_event_server.Base.Int.{ℤ, pos, ltb_ℤ}
use hermes_event_server.Base.Text.{text_length}
use Equality.{json_eq, is_option}

-- How a check ends: `missing` is the PayloadSchemaError for missing required fields, `refused` any
-- other PayloadSchemaError, `crashed` an error of the pattern engine.
pub data Verdict : Type 0 where
  accepted missing refused crashed : Verdict

-- One check after another; the first error ends it.
infixl 30 ◌then_check◌
abbrev pub ◌then_check◌ : Verdict → Verdict → Verdict
accepted then_check v = v
missing then_check v = missing
refused then_check v = refused
crashed then_check v = crashed

abbrev pub refuse_if : Bool → Verdict
refuse_if true = refused
refuse_if false = accepted

-- `schema.get(key)`, where a null is `None` too
abbrev pub not_null : Option Json → Option Json
not_null none = none
not_null (some null) = none
not_null (some v) = some v

abbrev pub setting : String → Fields → Option Json
setting key schema = not_null (get_field key schema)

abbrev pub is_str : Json → Bool
is_str (str s) = true
is_str _ = false

-- A type name, and whether a value is of it; `none` is an unsupported name.
unfoldable pub has_type : String → Json → Option Bool
has_type t v =
    if t == "object"
    then some (elim v [ dict fs ↦ true | _ ↦ false ])
    else if t == "array"
    then some (elim v [ list xs ↦ true | _ ↦ false ])
    else if t == "string"
    then some (is_str v)
    else if t == "number"
    then some (elim v [ int n ↦ true | float m k ↦ true | _ ↦ false ])
    else if t == "integer"
    then some (elim v [ int n ↦ true | _ ↦ false ])
    else if t == "boolean"
    then some (elim v [ bool b ↦ true | _ ↦ false ])
    else if t == "null"
    then some (elim v [ null ↦ true | _ ↦ false ])
    else none

-- `any(..)` over the choices: the first that fits ends the search, an unknown name raises.
unfoldable pub any_type : List Json → Json → Verdict
any_type [] v = refused
any_type (str t ∷ ts) v =
    let rest = any_type ts v in
    elim (has_type t v) [ none ↦ refused | some true ↦ accepted | some false ↦ rest ]
any_type (c ∷ ts) v = refused

-- `_matches_type`: all choices are looked at for being texts first.
unfoldable pub check_type : Option Json → Json → Verdict
check_type none v = accepted
check_type (some (list ts)) v =
    if any (λ t. not (is_str t)) (item_list ts) then refused else any_type (item_list ts) v
check_type (some t) v = any_type (t ∷ []) v

-- `const` and `enum`
unfoldable pub check_const : Option Json → Json → Verdict
check_const none v = accepted
check_const (some c) v = refuse_if (not (json_eq v c))

unfoldable pub check_enum : Option Json → Json → Verdict
check_enum none v = accepted
check_enum (some (list options)) v = refuse_if (not (is_option v options))
check_enum (some c) v = refused

-- An `isinstance(x, int)`: booleans are ints.
abbrev pub as_int : Json → Option ℤ
as_int (int n) = some n
as_int (bool true) = some (pos 1)
as_int (bool false) = some (pos 0)
as_int _ = none

abbrev pub first_key : Option Json → Option Json → Option Json
first_key none other = other
first_key (some v) other = some v

abbrev pub length_below : ℕ → Option Json → Verdict
length_below n none = accepted
length_below n (some m) = elim (as_int m) [ none ↦ refused | some k ↦ refuse_if (ltb_ℤ (pos n) k) ]

abbrev pub length_above : ℕ → Option Json → Verdict
length_above n none = accepted
length_above n (some m) = elim (as_int m) [ none ↦ refused | some k ↦ refuse_if (ltb_ℤ k (pos n)) ]

-- `_bounded_length`: `schema.get("minLength", schema.get("minItems"))` and so for the maximum.
unfoldable pub bounded_length : Fields → ℕ → Verdict
bounded_length schema n =
    length_below n
      (not_null (first_key (get_field "minLength" schema) (get_field "minItems" schema)))
    then_check length_above n
        (not_null (first_key (get_field "maxLength" schema) (get_field "maxItems" schema)))

abbrev pub compare_with : (ℤ × ℕ → Bool) → Option Json → Verdict
compare_with outside none = accepted
compare_with outside (some m) = elim (as_number m) [
  | none ↦ refused
  | some x ↦ refuse_if (outside x)
]

-- `_validate_number`
unfoldable pub check_number : Fields → ℤ × ℕ → Verdict
check_number schema (m, k) =
    compare_with (λ x. number_lt m k x.0 x.1) (setting "minimum" schema)
    then_check compare_with (λ x. number_lt x.0 x.1 m k) (setting "maximum" schema)

abbrev pub check_pattern : (String → String → Option Bool) → Option Json → String → Verdict
check_pattern matches none v = accepted
check_pattern matches (some (str p)) v =
    if ltb 256 (text_length p)
    then refused
    else elim (matches p v) [ none ↦ crashed | some true ↦ accepted | some false ↦ refused ]
check_pattern matches (some p) v = refused

-- `_validate_string`
unfoldable pub check_string : (String → String → Option Bool) → Fields → String → Verdict
check_string matches schema v =
    bounded_length schema (text_length v)
    then_check check_pattern matches (setting "pattern" schema) v

-- The names of `required`; `none` if it is no list of texts. A key that is present with null is no list.
abbrev pub texts : Items → List String
texts nil = []
texts (cons (str s) rest) = s ∷ texts rest
texts (cons _ rest) = texts rest

abbrev pub text_list : Json → Option (List String)
text_list (list ts) = if any (λ t. not (is_str t)) (item_list ts) then none else some (texts ts)
text_list _ = none

abbrev pub required_names : Option Json → Option (List String)
required_names none = some []
required_names (some v) = text_list v

-- The checks of the declared properties that the value has, in the schema's order.
unfoldable pub run_checks : List (String × (Json → Verdict)) → Fields → Verdict
run_checks [] value = accepted
run_checks ((name, check) ∷ rest) value =
    elim (get_field name value) [ none ↦ accepted | some v ↦ check v ]
    then_check run_checks rest value

-- `additionalProperties` is `false`
abbrev pub is_closed : Option Json → Bool
is_closed (some (bool false)) = true
is_closed _ = false

abbrev pub undeclared : Fields → List (String × (Json → Verdict)) → Bool
undeclared value checks = any (λ k. not (contains (map (λ c. c.0) checks) k)) (keys value)

-- `_validate_object`; `checks` are those of `properties`, `none` if that is no object.
unfoldable pub check_object : Fields → Option (List (String × (Json → Verdict))) → Fields → Verdict
check_object schema checks value = elim (required_names (get_field "required" schema)) [
  | none ↦ refused
  | some names ↦ if any (λ name. not (has_field name value)) names then missing else elim checks [
    | none ↦ refused
    | some known ↦
        refuse_if (is_closed (get_field "additionalProperties" schema) && undeclared value known)
        then_check run_checks known value
  ]
]

unfoldable pub check_items : Option (Json → Verdict) → List Json → Verdict
check_items none vs = accepted
check_items (some check) [] = accepted
check_items (some check) (v ∷ vs) = check v then_check check_items (some check) vs

-- `_validate` for a schema that is an object.
unfoldable pub check_value :
    (String → String → Option Bool)
    → Fields
    → Option (List (String × (Json → Verdict)))
    → Option (Json → Verdict)
    → Json
    → Verdict
check_value matches schema checks items (dict fs) = check_object schema checks fs
check_value matches schema checks items (list vs) =
    bounded_length schema (count_items vs) then_check check_items items (item_list vs)
check_value matches schema checks items (str s) = check_string matches schema s
check_value matches schema checks items (int n) = check_number schema (n, 0)
check_value matches schema checks items (float m k) = check_number schema (m, k)
check_value matches schema checks items (bool b) = accepted
check_value matches schema checks items null = accepted

unfoldable mutual
  -- `_validate`
  pub validate : (String → String → Option Bool) → Json → Json → Verdict
  validate matches (dict schema) v =
      check_type (setting "type" schema) v
      then_check check_const (get_field "const" schema) v
      then_check check_enum (get_field "enum" schema) v
      then_check check_value matches schema (properties matches schema) (item_check matches schema)
          v
  validate matches null v = refused
  validate matches (bool b) v = refused
  validate matches (int n) v = refused
  validate matches (float m k) v = refused
  validate matches (str s) v = refused
  validate matches (list xs) v = refused

  -- The object under `properties`, by default empty.
  pub properties :
      (String → String → Option Bool) → Fields → Option (List (String × (Json → Verdict)))
  properties matches end = some []
  properties matches (field k v rest) =
      let own = child_checks matches v in
      let later = properties matches rest in if k == "properties" then own else later

  pub child_checks :
      (String → String → Option Bool) → Json → Option (List (String × (Json → Verdict)))
  child_checks matches (dict fs) = some (named_checks matches fs)
  child_checks matches null = none
  child_checks matches (bool b) = none
  child_checks matches (int n) = none
  child_checks matches (float m k) = none
  child_checks matches (str s) = none
  child_checks matches (list xs) = none

  pub named_checks : (String → String → Option Bool) → Fields → List (String × (Json → Verdict))
  named_checks matches end = []
  named_checks matches (field k v rest) = (k, validate matches v) ∷ named_checks matches rest

  -- The schema under `items`.
  pub item_check : (String → String → Option Bool) → Fields → Option (Json → Verdict)
  item_check matches end = none
  item_check matches (field k v rest) =
      let own = some (validate matches v) in
      let later = item_check matches rest in
      if k == "items" then (elim v [ null ↦ none | _ ↦ own ]) else later

-- `validate_payload`: an empty schema accepts everything.
unfoldable pub validate_payload : (String → String → Option Bool) → Fields → Fields → Verdict
validate_payload matches end value = accepted
validate_payload matches (field k v rest) value =
    validate matches (dict (field k v rest)) (dict value)
