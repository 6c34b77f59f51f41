-- ===== src/Administration.antt =====
-- src/eventserver/catalog_admin.py and publisher_admin.py: the local commands that register event types
-- and publishers, without their command lines. `sha256` is the token digest.
pub mod Rotation
use hermes_event_server.Base.{
  ℕ, String, Bool, true, false, not, ◌&&◌, ◌||◌, Option, none, some, List, [], ◌∷◌, ltb, leb,
  nat_beq, if◌then◌else◌, any, sort_by,
}
use hermes_event_server.Base.Equality.{◌==◌, string_eq, nat_eq, pair_eq}
use hermes_event_server.Base.Table.{get, put}
use hermes_event_server.Base.Action.{
  value_error, runtime_error, Action, pure, raise, gets, modify, raise_if, ◌>>=◌, ◌>>◌,
}
use hermes_event_server.Json.{Json, Fields, str, dict, end, field}
use hermes_event_server.Models.{EventType, EventPublisher, Database, event_type_key, publisher_key}
use hermes_event_server.Base.Text.{text_length, text_le}
use hermes_event_server.MatchKeys.{at_end, add_key, no_dimension}
use hermes_event_server.Schema.{Verdict, accepted, missing, refused, crashed, validate_payload}
use Prim.Native.Char.{code}

pub record MatchKeyOption : Type 0 where
  pub key : String
  pub label : String

pub record CatalogEntry : Type 0 where
  pub event_key : String
  pub display_name : String
  pub description : String
  pub schema_version : ℕ
  pub payload_schema : Fields
  pub subscribable : Bool
  pub match_key_field : Option String
  pub match_key_options : List MatchKeyOption
  pub match_keys_required : Bool

abbrev pub no_options : List MatchKeyOption → Bool
no_options [] = true
no_options (o ∷ os) = false

abbrev pub key_repeats : List MatchKeyOption → Bool
key_repeats [] = false
key_repeats (o ∷ os) = any (λ p. p.key == o.key) os || key_repeats os

-- `validate_match_keys`: no test of the model refuses the entry.
unfoldable pub valid_match_keys : CatalogEntry → Bool
valid_match_keys e =
    not (key_repeats e.match_key_options)
    && (not (not (no_options e.match_key_options) && no_dimension e.match_key_field)
        && (not (not (no_dimension e.match_key_field) && no_options e.match_key_options)
            && (not (e.match_keys_required && no_dimension e.match_key_field)
                && not (e.match_keys_required && no_options e.match_key_options))))

-- The test of the schema on the empty payload, where missing fields are no error.
abbrev pub check_schema : Verdict → Action Database (Unit {0})
check_schema accepted = pure tt
check_schema missing = pure tt
check_schema refused = raise value_error
check_schema crashed = raise runtime_error

abbrev pub option_fields : List MatchKeyOption → List Json
option_fields [] = []
option_fields (o ∷ os) =
    dict (field "key" (str o.key) (field "label" (str o.label) end)) ∷ option_fields os

abbrev pub entry_type : CatalogEntry → EventType
entry_type e = record {
  event_key = e.event_key;
  display_name = e.display_name;
  description = e.description;
  schema_version = e.schema_version;
  payload_schema = e.payload_schema;
  enabled = true;
  subscribable = e.subscribable;
  deprecated_at = none;
  match_key_field = e.match_key_field;
  match_key_options = option_fields e.match_key_options;
  match_keys_required = e.match_keys_required;
}

abbrev pub other_version : Option EventType → ℕ → Bool
other_version none version = false
other_version (some t) version = not (nat_beq t.schema_version version)

-- `register` of the catalog; `matches` is the pattern engine.
unfoldable pub register_entry :
    (String → String → Option Bool) → CatalogEntry → Action Database (Unit {0})
register_entry matches entry = do
  check_schema (validate_payload matches entry.payload_schema end)
  existing ← gets (λ db. get event_type_key entry.event_key db.event_types)
  raise_if (other_version existing entry.schema_version) value_error
  modify (λ db. record db { event_types = put event_type_key (entry_type entry) db.event_types })

abbrev pub is_lower_alnum : ℕ → Bool
is_lower_alnum c = (leb b'a' c && leb c b'z') || (leb b'0' c && leb c b'9')

-- `[a-z0-9_-]*`
abbrev pub publisher_rest : String → Bool
publisher_rest String.[] = true
publisher_rest (String.◌∷◌ c rest) =
    (is_lower_alnum (code c) || (nat_beq (code c) b'_' || nat_beq (code c) b'-'))
    && publisher_rest rest

-- `[a-z0-9][a-z0-9_-]{2,63}`
abbrev pub is_publisher_key : String → Bool
is_publisher_key String.[] = false
is_publisher_key (String.◌∷◌ c rest) =
    is_lower_alnum (code c)
    && (publisher_rest rest && (leb 2 (text_length rest) && leb (text_length rest) 63))

-- `PREFIX_RE.fullmatch`, in a segment: whether it may have underscores, and whether it has a character.
abbrev pub prefix_from : Bool → Bool → String → Bool
prefix_from underscores started String.[] = false
prefix_from underscores started (String.◌∷◌ c rest) =
    if nat_beq (code c) b'.'
    then started && (at_end rest || prefix_from true false rest)
    else (is_lower_alnum (code c) || (underscores && nat_beq (code c) b'_'))
      && prefix_from underscores true rest

abbrev pub is_prefix : String → Bool
is_prefix s = prefix_from false false s

abbrev pub without_repeats : List String → List String
without_repeats [] = []
without_repeats (s ∷ ss) = add_key s (without_repeats ss)

abbrev pub bad_prefixes : List String → Bool
bad_prefixes [] = true
bad_prefixes (p ∷ ps) = any (λ s. not (is_prefix s)) (p ∷ ps)

abbrev pub publisher_row : String → String → List String → String → EventPublisher
publisher_row publisher_key hash prefixes description = record {
  publisher_key = publisher_key;
  token_hash = hash;
  allowed_event_prefixes = sort_by text_le (without_repeats prefixes);
  description = description;
  enabled = true;
}

unfoldable pub upsert :
    (String → String) → String → String → List String → String → Action Database (Unit {0})
upsert sha256 key token prefixes description = do
  raise_if (not (is_publisher_key key)) value_error
  raise_if (ltb (text_length token) 32) value_error
  raise_if (bad_prefixes prefixes) value_error
  modify (λ db. record db {
    publishers =
        put publisher_key (publisher_row key (sha256 token) prefixes description) db.publishers;
  })
