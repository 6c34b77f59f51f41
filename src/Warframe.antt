-- ===== src/Warframe.antt =====
-- src/eventserver/providers/warframe/common.py: what the three Warframe providers share, in the child
-- modules beside the adapter of world states and the runner. `uuid5` is taken in NAMESPACE_URL.
pub mod CetusNight
pub mod KonzuRotation
pub mod GhoulEvent
pub mod Times
pub mod WorldState
pub mod Phases
pub mod Goals
pub mod Runner
pub mod Freed
pub mod Batch
pub mod Transacted
pub mod Counts
pub mod Client
pub mod Fetching
use hermes_event_server.Base.{String, Bool, true, false, Option, none, some, List, [], ◌∷◌}
use hermes_event_server.Base.Equality.{string_eq}
use hermes_event_server.Base.Table.{get}
use hermes_event_server.Base.Format.{concat}
use hermes_event_server.Base.Action.{Result, ok, err, value_error, attribute_error}
use hermes_event_server.Json.{Json, Fields, null, bool, str, end, field, is_truthy}
use hermes_event_server.Models.{Time, Observation, DomainEvent}
use hermes_event_server.Registry.{Datetime, aware, naive, RawValue, json, datetime, Raw}

-- Python's clock and formats: `now` is `utc_now()`; `isoformat` prints a moment in UTC;
-- `fromisoformat` has no value where it raises ValueError; `text_of` is `str`.
pub record Environment : Type 0 where
  pub now : Time
  pub uuid5 : String → String
  pub isoformat : Time → String
  pub fromisoformat : String → Option Datetime
  pub text_of : Json → String

abbrev pub raw_second : Option (String × RawValue) → Option RawValue
raw_second none = none
raw_second (some e) = some e.1

abbrev pub raw_key : String × RawValue → String
raw_key e = e.0

-- `raw.get(key)`; `none` is a missing key.
unfoldable pub raw_get : String → Raw → Option RawValue
raw_get key raw = raw_second (get raw_key key raw)

abbrev pub moment : Datetime → Result Time
moment (aware t) = ok t
moment naive = err value_error

abbrev pub parsed : Option Datetime → Result Time
parsed none = err value_error
parsed (some d) = moment d

abbrev pub or_fallback : Option Time → Result Time
or_fallback none = err value_error
or_fallback (some t) = ok t

module _ (env : Environment) where
  -- A value that is neither a text nor a datetime has no method `replace`.
  unfoldable pub parse_time : Option RawValue → Option Time → Result Time
  parse_time none fallback = or_fallback fallback
  parse_time (some (json null)) fallback = or_fallback fallback
  parse_time (some (json (str s))) fallback = parsed (env.fromisoformat s)
  parse_time (some (json value)) fallback = err attribute_error
  parse_time (some (datetime d)) fallback = moment d

  -- `parse_time(raw["expires_at"]) if raw.get("expires_at") else None`
  unfoldable pub optional_time : Option RawValue → Result (Option Time)
  optional_time none = ok none
  optional_time (some (json value)) = elim (is_truthy value) [
    | true ↦ elim (parse_time (some (json value)) none) [ ok t ↦ ok (some t) | err e ↦ err e ]
    | false ↦ ok none
  ]
  optional_time (some (datetime d)) = elim (moment d) [ ok t ↦ ok (some t) | err e ↦ err e ]

  unfoldable pub event_id : String → String → String
  event_id event_key dedupe_key = env.uuid5 (concat ("autoqq:" ∷ event_key ∷ ":" ∷ dedupe_key ∷ []))

  unfoldable pub build_event : String → String → String → Time → Fields → Fields → DomainEvent
  build_event event_key provider_key dedupe_key occurred_at subject payload = record {
    event_id = event_id event_key dedupe_key;
    event_key = event_key;
    schema_version = 1;
    dedupe_key = dedupe_key;
    occurred_at = occurred_at;
    subject = subject;
    payload = payload;
    metadata = field "provider_key" (str provider_key) end;
  }

  -- `t.isoformat() if t else None`
  unfoldable pub optional_isoformat : Option Time → Json
  optional_isoformat none = null
  optional_isoformat (some t) = str (env.isoformat t)

-- `require(raw, key, str)`
unfoldable pub require_str : Raw → String → Result String
require_str raw key = elim (raw_get key raw) [ some (json (str s)) ↦ ok s | _ ↦ err value_error ]

-- `require(raw, key, bool)`
unfoldable pub require_bool : Raw → String → Result Bool
require_bool raw key = elim (raw_get key raw) [ some (json (bool b)) ↦ ok b | _ ↦ err value_error ]

unfoldable pub observation : String → String → Time → Time → Option Time → Fields → Observation
observation provider_key identity observed_at effective_at expires_at state = record {
  provider_key = provider_key;
  schema_version = 1;
  identity = identity;
  observed_at = observed_at;
  effective_at = effective_at;
  expires_at = expires_at;
  state = state;
  source_metadata = field "source" (str "warframe-worldstate-adapter") end;
}
