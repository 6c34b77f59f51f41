-- ===== src/MatchKeys.antt =====
-- src/eventserver/core/match_keys.py: the shape of match keys, and which subscriptions an event
-- reaches. `repr` stands for `str(..)` of a JSON value that is no text.
pub mod Normal
use Prim.Native.String
use Prim.Native.Char.{code}
use hermes_event_server.Base.{
  ℕ, zero, suc, ◌+◌, ◌-◌, ◌*◌, ◌/◌, ◌%◌, ◌^◌, ◌≤◌, ◌<◌, min, max, String, ◌≡◌, refl, sym, ap, subst,
  ◌∙◌, ◌≢◌, ◌↔◌, ◌⊎◌, inl, inr, Bool, true, false, not, ◌&&◌, ◌||◌, Option, none, some, List, [],
  ◌∷◌, ◌++◌, map, arith, All, is_some, get_or, ltb, leb, nat_beq, if◌then◌else◌, ltb→lt, leb→le,
  Bool-cases, Option-cases, take, select, any, insert_by, sort_by, length, length-append,
  length-take-le, All-take, All-append, All-select, All-select_of, All-insert_by, All-sort_by,
  All-map2,
}
use hermes_event_server.Base.Equality.{
  Eq, ◌==◌, contains, string_eq, nat_eq, pair_eq, string_discrete,
}
use hermes_event_server.Base.Table.{
  get, put, delete, get-put, get-put_self, get-put_ne, get-delete, get_absent, key-get, IsKeyed,
  Found, put-IsKeyed, delete-IsKeyed, select-IsKeyed, take-IsKeyed, sort_by-IsKeyed, rows-Found,
  All-put, All-get, All-delete,
}
use hermes_event_server.Base.Action.{
  Error, lease_conflict_error, authorization_error, last_admin_error, value_error,
  event_not_found_error, match_key_error, invalid_match_key_error, publication_error,
  pairing_code_error, first_admin_bootstrap_error, lookup_error, key_error, runtime_error,
  integrity_error, Result, ok, err, Action, pure, raise, lift, gets, or_raise, modify, raise_if,
  ◌>>=◌, ◌>>◌,
}
use hermes_event_server.Json.{
  Json, Items, Fields, null, bool, int, float, str, list, dict, nil, cons, end, field, get_field,
  has_field, item_list, count_items, keys, str_items, optional_str, number_lt, number_eq, as_number,
}
use hermes_event_server.Models.{
  Time, seconds, Role, user, admin, AccountStatus, active, blocked, User, UserPermission, EventType,
  EventPublisher, EventAlias, ProviderInstance, ProviderCheckpoint, ObservationRecord,
  EventOccurrence, Subscription, DeliveryStatus, pending, leased, retry, sent, dead, Delivery,
  PairingCode, AuditLog, Observation, DomainEvent, DeliveryMessage, model_dump, Database,
  empty_database, user_key, permission_key, event_type_key, alias_key, instance_key, checkpoint_key,
  subscription_key, delivery_key, pairing_key, publisher_key,
}
use hermes_event_server.Base.Text.{text_le}

-- `[A-Za-z0-9_.:-]`
abbrev pub is_key_char : ℕ → Bool
is_key_char c =
    (leb b'A' c && leb c b'Z')
    || ((leb b'a' c && leb c b'z')
        || ((leb b'0' c && leb c b'9')
            || (nat_beq c b'_' || (nat_beq c b'.' || (nat_beq c b':' || nat_beq c b'-')))))

abbrev pub key_length_fits : ℕ → Bool
key_length_fits n = leb 1 n && leb n 64

-- A `$` also matches before a line feed that ends the text.
abbrev pub at_end : String → Bool
at_end String.[] = true
at_end (String.◌∷◌ c rest) = false

-- `MATCH_KEY_PATTERN.match`, after n characters of the key.
unfoldable pub match_rest : ℕ → String → Bool
match_rest n String.[] = key_length_fits n
match_rest n (String.◌∷◌ c rest) =
    let more = match_rest (suc n) rest in
    if is_key_char (code c)
    then more
    else (nat_beq (code c) 10 && (at_end rest && key_length_fits n))

unfoldable pub is_match_key : String → Bool
is_match_key = match_rest 0

abbrev pub max_match_keys : ℕ
max_match_keys = 32

-- A set as a list without repetitions.
abbrev pub add_key : String → List String → List String
add_key k ks = if contains ks k then ks else k ∷ ks

-- The loop of `normalize_match_keys`.
unfoldable pub collect_keys : List String → List String → Result (List String)
collect_keys normalized [] = ok normalized
collect_keys normalized (value ∷ values) =
    let rest = collect_keys (add_key value normalized) values in
    if is_match_key value then rest else err match_key_error

abbrev pub bounded_keys : Result (List String) → Result (List String)
bounded_keys (err e) = err e
bounded_keys (ok normalized) =
    if ltb max_match_keys (length normalized)
    then err match_key_error
    else ok (sort_by text_le normalized)

unfoldable pub normalize_match_keys : Option (List String) → Result (List String)
normalize_match_keys none = ok []
normalize_match_keys (some values) = bounded_keys (collect_keys [] values)

abbrev pub option_key : Json → Option String
option_key (dict fs) = elim (get_field "key" fs) [
  | some (str s) ↦ (if s == "" then none else some s)
  | _ ↦ none
]
option_key _ = none

unfoldable pub allowed_match_keys : List Json → List String
allowed_match_keys [] = []
allowed_match_keys (o ∷ os) = elim (option_key o) [
  | none ↦ allowed_match_keys os
  | some k ↦ add_key k (allowed_match_keys os)
]

unfoldable pub ensure_match_keys_allowed : List String → List String → Result (Unit {0})
ensure_match_keys_allowed values allowed =
    if any (λ v. not (contains allowed v)) values then err match_key_error else ok tt

abbrev pub text_of : (Json → String) → Json → String
text_of repr (str s) = s
text_of repr v = repr v

-- `not field`
abbrev pub no_dimension : Option String → Bool
no_dimension none = true
no_dimension (some s) = s == ""

abbrev pub intersects : (Json → String) → Option Json → List String → Bool
intersects repr (some (list present)) watched =
    any (λ item. contains watched (text_of repr item)) (item_list present)
intersects repr (some _) watched = false
intersects repr none watched = false

abbrev pub follows_all : List String → Bool
follows_all [] = true
follows_all (k ∷ ks) = false

abbrev pub field_name : Option String → String
field_name none = ""
field_name (some s) = s

unfoldable pub recipient_matches : (Json → String) → Option String → Fields → List String → Bool
recipient_matches repr dimension event_data subscribed =
    if no_dimension dimension
    then true
    else if follows_all subscribed
    then true
    else intersects repr (get_field (field_name dimension) event_data) subscribed
