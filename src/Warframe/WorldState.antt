-- ===== src/Warframe/WorldState.antt =====
-- src/eventserver/providers/warframe/worldstate_adapter.py: what a world state says to each provider.
-- `int_text` is `int` of a text, without a value where it raises ValueError.
use hermes_event_server.Base.{
  ℕ, suc, ◌-◌, ◌/◌, ◌^◌, String, Bool, true, false, not, ◌&&◌, Option, none, some, List, [], ◌∷◌,
  ltb, leb, if◌then◌else◌,
}
use hermes_event_server.Base.Int.{ℤ, pos, negsuc, sub_ℕ}
use hermes_event_server.Base.Equality.{◌==◌, string_eq}
use hermes_event_server.Base.Format.{concat, decimal_ℤ}
use hermes_event_server.Base.Action.{
  Result, ok, err, key_error, overflow_error, world_state_schema_error,
}
use hermes_event_server.Base.Fallible.{pure, or_raise, ◌>>=◌}
use hermes_event_server.Json.{
  Json, Items, Fields, null, bool, int, float, str, list, dict, nil, cons, get_field, is_truthy,
}
use hermes_event_server.Models.{Time, seconds}
use hermes_event_server.Registry.{aware, RawValue, json, datetime, Raw}
use hermes_event_server.Warframe.Times.{from_seconds, from_milliseconds, timestamp, to_minute}

abbrev pub cetus_tag : String
cetus_tag = "CetusSyndicate"

abbrev pub ghoul_tag : String
ghoul_tag = "InfestedPlains"

abbrev pub cetus_night_seconds : ℕ
cetus_night_seconds = 3000

-- `isinstance(value, int)`, with the value's number; `bool` is a subclass of `int`.
abbrev pub int_value : Option Json → Option ℤ
int_value (some (int n)) = some n
int_value (some (bool b)) = some (if b then pos 1 else pos 0)
int_value _ = none

-- An f-string's `{value}` for such a value.
abbrev pub int_format : Json → ℤ → String
int_format (bool b) n = if b then "True" else "False"
int_format v n = decimal_ℤ n

-- `_epoch_seconds`
unfoldable pub epoch_seconds : Option Json → Result ℤ
epoch_seconds value = or_raise (int_value value) world_state_schema_error

-- `datetime.fromtimestamp(_epoch_seconds(payload.get("Time")), tz=UTC)`
unfoldable pub observed_time : Fields → Result Time
observed_time payload = do n ← epoch_seconds (get_field "Time" payload); from_seconds n

-- m / 2 ^ k rounded towards 0.
abbrev pub truncated : ℤ → ℕ → ℤ
truncated (pos m) k = pos (m / 2 ^ k)
truncated (negsuc m) k = sub_ℕ 0 (suc m / 2 ^ k)

-- `_bson_id`
unfoldable pub bson_id : Option Json → Option String
bson_id (some (dict fs)) = elim (get_field "$oid" fs) [
  | some (str oid) ↦ if oid == "" then none else some oid
  | _ ↦ none
]
bson_id _ = none

abbrev pub and_then : Option Fields → Result (List Fields) → Result (List Fields)
and_then none rest = err world_state_schema_error
and_then (some fs) (err e) = err e
and_then (some fs) (ok rest) = ok (fs ∷ rest)

abbrev pub as_dict : Json → Option Fields
as_dict (dict fs) = some fs
as_dict _ = none

abbrev pub dicts : Items → Result (List Fields)
dicts nil = ok []
dicts (cons v vs) = and_then (as_dict v) (dicts vs)

-- `_objects`
unfoldable pub objects : Option Json → Result (List Fields)
objects (some (list vs)) = dicts vs
objects _ = err world_state_schema_error

-- `item.get("Tag") == tag`
abbrev pub has_tag : String → Fields → Bool
has_tag tag fs = elim (get_field "Tag" fs) [ some (str s) ↦ s == tag | _ ↦ false ]

abbrev pub first_tagged : String → List Fields → Result Fields
first_tagged tag [] = err world_state_schema_error
first_tagged tag (m ∷ ms) = if has_tag tag m then ok m else first_tagged tag ms

-- `_cetus_mission`
unfoldable pub cetus_mission : Fields → Result Fields
cetus_mission payload = do
  missions ← objects (get_field "SyndicateMissions" payload)
  first_tagged cetus_tag missions

abbrev pub subscript : String → Option Json → Option Json
subscript key (some (dict fs)) = get_field key fs
subscript key _ = none

-- `before - timedelta(seconds=n)`
unfoldable pub seconds_before : Time → ℕ → Result Time
seconds_before t n = if leb (seconds n) t then ok (t - seconds n) else err overflow_error

abbrev pub at_time : Time → RawValue
at_time t = datetime (aware t)

module _ (int_text : String → Option ℤ) where
  -- `int(raw)`
  abbrev pub to_int : Option Json → Option ℤ
  to_int (some (str s)) = int_text s
  to_int (some (float m k)) = some (truncated m k)
  to_int value = int_value value

  -- `_bson_date`
  unfoldable pub bson_date : Option Json → Result Time
  bson_date value = do
    n ←
        or_raise (to_int (subscript "$numberLong" (subscript "$date" value)))
          world_state_schema_error
    from_milliseconds n

  abbrev pub cetus_report : Time → String → Bool → Time → Time → Time → Raw
  cetus_report bounty_end phase is_night observed_at effective_at expires_at =
      (
        "identity",
        json (str (concat ("cetus:" ∷ decimal_ℤ (timestamp bounty_end) ∷ ":" ∷ phase ∷ []))),
      )
      ∷ ("is_night", json (bool is_night))
      ∷ ("observed_at", at_time observed_at)
      ∷ ("effective_at", at_time effective_at)
      ∷ ("expires_at", at_time expires_at)
      ∷ []

  -- The night begins 3000 seconds before the end of the bounty.
  abbrev pub night_phase : Time → Time → Result Raw
  night_phase observed_at bounty_end = do
    night_start ← seconds_before bounty_end cetus_night_seconds
    pure (cetus_report bounty_end "night" true observed_at night_start bounty_end)

  abbrev pub day_phase : Time → Time → Result Raw
  day_phase observed_at bounty_end = do
    phase_end ← seconds_before bounty_end cetus_night_seconds
    pure (cetus_report bounty_end "day" false observed_at observed_at phase_end)

  unfoldable pub cetus_phase : Time → Time → Result Raw
  cetus_phase observed_at bounty_end =
      if leb bounty_end observed_at
      then err world_state_schema_error
      else if leb (bounty_end - observed_at) (seconds cetus_night_seconds)
      then night_phase observed_at bounty_end
      else day_phase observed_at bounty_end

  unfoldable pub cetus_night : Fields → Result Raw
  cetus_night payload = do
    observed_at ← observed_time payload
    mission ← cetus_mission payload
    expiry ← bson_date (get_field "Expiry" mission)
    cetus_phase observed_at (to_minute expiry)

  abbrev pub seed_format : Option Json → Result String
  seed_format none = err world_state_schema_error
  seed_format (some v) = elim (int_value (some v)) [
    | none ↦ err world_state_schema_error
    | some n ↦ ok (int_format v n)
  ]

  unfoldable pub konzu_rotation : Fields → Result Raw
  konzu_rotation payload = do
    observed_at ← observed_time payload
    mission ← cetus_mission payload
    seed ← seed_format (get_field "Seed" mission)
    activation ← bson_date (get_field "Activation" mission)
    expiry ← bson_date (get_field "Expiry" mission)
    pure (
        ("rotation_id", json (str (concat (seed ∷ ":" ∷ decimal_ℤ (timestamp expiry) ∷ []))))
        ∷ ("observed_at", at_time observed_at)
        ∷ ("effective_at", at_time activation)
        ∷ ("expires_at", at_time expiry)
        ∷ ("confirmed_summary", json null)
        ∷ [])

  -- `not bool(goal.get("Success"))`
  abbrev pub unfinished : Option Json → Bool
  unfinished none = true
  unfinished (some v) = not (is_truthy v)

  abbrev pub ghoul_identity : Option String → Time → Time → String
  ghoul_identity (some oid) activation expiry = oid
  ghoul_identity none activation expiry =
      concat ("ghoul:" ∷ decimal_ℤ (timestamp activation) ∷ ":" ∷ decimal_ℤ (timestamp expiry) ∷ [])

  abbrev pub active_goal : Time → Fields → Time → Time → Raw
  active_goal observed_at goal activation expiry =
      ("identity", json (str (ghoul_identity (bson_id (get_field "_id" goal)) activation expiry)))
      ∷ ("active", json (bool true))
      ∷ ("observed_at", at_time observed_at)
      ∷ ("effective_at", at_time activation)
      ∷ ("expires_at", at_time expiry)
      ∷ []

  abbrev pub inactive : Time → Raw
  inactive observed_at =
      ("identity", json (str "ghoul:inactive"))
      ∷ ("active", json (bool false))
      ∷ ("observed_at", at_time observed_at)
      ∷ ("effective_at", at_time observed_at)
      ∷ ("expires_at", json null)
      ∷ []

  -- The loop over the candidates, with the goals of other tags passed over.
  unfoldable pub first_active : Time → List Fields → Result Raw
  first_active observed_at [] = ok (inactive observed_at)
  first_active observed_at (goal ∷ goals) =
      let rest = first_active observed_at goals in
      if not (has_tag ghoul_tag goal)
      then rest
      else (bson_date (get_field "Activation" goal) >>= λ activation.
          bson_date (get_field "Expiry" goal) >>= λ expiry.
          if leb activation observed_at
            && (ltb observed_at expiry && unfinished (get_field "Success" goal))
          then ok (active_goal observed_at goal activation expiry)
          else rest)

  unfoldable pub ghoul_event : Fields → Result Raw
  ghoul_event payload = do
    observed_at ← observed_time payload
    goals ← objects (get_field "Goals" payload)
    first_active observed_at goals

  unfoldable pub extract : String → Fields → Result Raw
  extract provider_key payload =
      if provider_key == "warframe.cetus_night"
      then cetus_night payload
      else if provider_key == "warframe.konzu_rotation"
      then konzu_rotation payload
      else if provider_key == "warframe.ghoul_event"
      then ghoul_event payload
      else err key_error

  unfoldable pub extract_keys : List String → Fields → Result (List (String × Raw))
  extract_keys [] payload = ok []
  extract_keys (key ∷ rest) payload = do
    raw ← extract key payload
    others ← extract_keys rest payload
    pure ((key, raw) ∷ others)

  abbrev pub extract_all : Fields → Result (List (String × Raw))
  extract_all payload =
      extract_keys
        ("warframe.cetus_night" ∷ "warframe.konzu_rotation" ∷ "warframe.ghoul_event" ∷ []) payload
