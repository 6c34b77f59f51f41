-- ===== src/ScheduledReminder/Config.antt =====
-- publishers/scheduled-reminder/src/scheduled_reminder/config.py. Parameters: `is_alnum`, `lower` and
-- `split` are str's methods (`split` at "."), `zone_info` has no value where ZoneInfo raises
-- ZoneInfoNotFoundError, the two `fromisoformat` none where they raise ValueError; a time of day is
-- in microseconds. What `read_text` and `json.loads` return is the argument of load_config.
use hermes_event_server.Base.{
  ℕ, ◌%◌, String, Bool, false, not, ◌&&◌, ◌||◌, Option, none, some, List, [], ◌∷◌, map, ltb, leb,
  nat_beq, if◌then◌else◌, any, length,
}
use hermes_event_server.Base.Equality.{◌==◌, contains, string_eq, nat_eq, pair_eq}
use hermes_event_server.Base.Table.{get}
use hermes_event_server.Base.Action.{Result, ok, err, configuration_error}
use hermes_event_server.Json.{Json, Items, Fields, bool, int, str, list, dict, nil, cons, get_field}
use hermes_event_server.Models.{Time}
use hermes_event_server.Base.Int.{ℤ, pos}
use hermes_event_server.Base.Text.{text_length}
use hermes_event_server.Base.Fallible.{pure, or_raise, raise_if, ◌>>=◌, ◌>>◌}
use hermes_event_server.Registry.{Datetime, aware, naive}
use hermes_event_server.ScheduledReminder.{
  Zone, ReminderRule, weekly, interval, rule_id, ReminderConfig,
}
use Prim.Native.Char.{code}

abbrev pub weekday_key : String × ℕ → String
weekday_key e = e.0

-- WEEKDAYS
abbrev pub weekday_numbers : List (String × ℕ)
weekday_numbers =
    ("monday", 0)
    ∷ ("tuesday", 1)
    ∷ ("wednesday", 2)
    ∷ ("thursday", 3)
    ∷ ("friday", 4)
    ∷ ("saturday", 5)
    ∷ ("sunday", 6)
    ∷ []

-- An item of `sorted(set(..))`.
abbrev pub insert_once : ℕ → List ℕ → List ℕ
insert_once x [] = x ∷ []
insert_once x (y ∷ ys) =
    if ltb x y then x ∷ y ∷ ys else if nat_beq x y then y ∷ ys else y ∷ insert_once x ys

unfoldable pub sorted_set : List ℕ → List ℕ
sorted_set [] = []
sorted_set (x ∷ xs) = insert_once x (sorted_set xs)

-- `value.replace(character, "")`
abbrev pub without : ℕ → String → String
without c String.[] = String.[]
without c (String.◌∷◌ d s) = if nat_beq (code d) c then without c s else String.◌∷◌ d (without c s)

abbrev pub integer : Json → Option ℤ
integer (int n) = some n
integer (bool b) = some (if b then pos 1 else pos 0)
integer _ = none

abbrev pub in_range : ℕ → ℕ → Option ℤ → Result ℕ
in_range lo hi (some (pos n)) = if leb lo n && leb n hi then ok n else err configuration_error
in_range lo hi _ = err configuration_error

-- An `int` from `lo` to `hi`, with a default for a missing key.
abbrev pub bounded_int : Option Json → Option ℕ → ℕ → ℕ → Result ℕ
bounded_int none none lo hi = err configuration_error
bounded_int none (some n) lo hi = ok n
bounded_int (some v) default lo hi = in_range lo hi (integer v)

abbrev pub positive_int : Option Json → Result ℕ
positive_int none = ok 1
positive_int (some v) = elim (integer v) [
  | some (pos n) ↦ if ltb n 1 then err configuration_error else ok n
  | _ ↦ err configuration_error
]

-- `_required_string`
unfoldable pub required_string : Fields → String → ℕ → Result String
required_string payload key max_length = elim (get_field key payload) [
  | some (str s) ↦
      if (s == "") || ltb max_length (text_length s) then err configuration_error else ok s
  | _ ↦ err configuration_error
]

-- Python's functions on texts that the configuration is read with.
pub record Formats : Type 0 where
  pub is_alnum : String → Bool
  pub lower : String → String
  pub split : String → List String
  pub zone_info : String → Option Zone
  pub fromisoformat : String → Option Datetime
  -- `time.fromisoformat` of a text without an offset, in microseconds of the day. A text with an
  -- offset, which the source accepts too and whose time then never occurs, is not looked at.
  pub time_fromisoformat : String → Option Time

module _ (formats : Formats) where
  abbrev pub is_part : String → Bool
  is_part part = formats.is_alnum (without 95 part) && not (part == "")

  -- `_valid_event_key`
  unfoldable pub valid_event_key : String → Bool
  valid_event_key value =
      leb 3 (length (formats.split value))
      && not (any (λ part. not (is_part part)) (formats.split value))

  abbrev pub weekday_item : Json → Result ℕ
  weekday_item (str s) = elim (get weekday_key (formats.lower s) weekday_numbers) [
    | none ↦ err configuration_error
    | some e ↦ ok e.1
  ]
  weekday_item _ = err configuration_error

  abbrev pub time_item : Json → Result Time
  time_item (str s) = or_raise (formats.time_fromisoformat s) configuration_error
  time_item _ = err configuration_error

  unfoldable pub parse_items : (Json → Result ℕ) → Items → Result (List ℕ)
  parse_items parse nil = ok []
  parse_items parse (cons v vs) = do n ← parse v; ns ← parse_items parse vs; pure (n ∷ ns)

  -- A list that is not empty, item by item.
  abbrev pub parse_list : (Json → Result ℕ) → Option Json → Result (List ℕ)
  parse_list parse (some (list (cons v vs))) = parse_items parse (cons v vs)
  parse_list parse _ = err configuration_error

  -- `_weekdays`
  unfoldable pub parse_weekdays : Option Json → Result (List ℕ)
  parse_weekdays value = do parsed ← parse_list weekday_item value; pure (sorted_set parsed)

  -- `_times`
  unfoldable pub parse_times : Option Json → Result (List Time)
  parse_times value = do
    parsed ← parse_list time_item value
    raise_if (any (λ t. not (nat_beq (t % 60_000_000) 0)) parsed) configuration_error
    pure (sorted_set parsed)

  abbrev pub aware_moment : Option Datetime → Result Time
  aware_moment none = err configuration_error
  aware_moment (some naive) = err configuration_error
  aware_moment (some (aware t)) = ok t

  -- `_aware_datetime`
  unfoldable pub aware_datetime : String → Result Time
  aware_datetime value = aware_moment (formats.fromisoformat value)

  abbrev pub is_reminder_id : String → Bool
  is_reminder_id id = formats.is_alnum (without 95 (without 45 id)) && leb (text_length id) 128

  unfoldable pub parse_weekly : Fields → String → String → String → Zone → Result ReminderRule
  parse_weekly payload id title text zone = do
    days ← parse_weekdays (get_field "weekdays" payload)
    times ← parse_times (get_field "times" payload)
    pure (
        weekly (record {
          reminder_id = id;
          title = title;
          text = text;
          timezone = zone;
          weekdays = days;
          times = times;
        }))

  unfoldable pub parse_interval : Fields → String → String → String → Zone → Result ReminderRule
  parse_interval payload id title text zone = do
    anchor ← required_string payload "anchor_at" 128
    anchor_at ← aware_datetime anchor
    every ← bounded_int (get_field "every_minutes" payload) none 1 10080
    pure (
        interval (record {
          reminder_id = id;
          title = title;
          text = text;
          timezone = zone;
          anchor_at = anchor_at;
          every_minutes = every;
        }))

  abbrev pub parse_kind : Fields → String → String → String → Zone → String → Result ReminderRule
  parse_kind payload id title text zone kind =
      if kind == "weekly"
      then parse_weekly payload id title text zone
      else if kind == "interval"
      then parse_interval payload id title text zone
      else err configuration_error

  -- `_parse_rule` of an object.
  unfoldable pub parse_fields : Fields → Result ReminderRule
  parse_fields payload = do
    id ← required_string payload "id" 128
    raise_if (not (is_reminder_id id)) configuration_error
    title ← required_string payload "title" 200
    text ← required_string payload "text" 4000
    zone_name ← required_string payload "timezone" 128
    zone ← or_raise (formats.zone_info zone_name) configuration_error
    kind ← required_string payload "kind" 128
    parse_kind payload id title text zone kind

  abbrev pub parse_rule : Json → Result ReminderRule
  parse_rule (dict payload) = parse_fields payload
  parse_rule _ = err configuration_error

  unfoldable pub parse_rules : Items → Result (List ReminderRule)
  parse_rules nil = ok []
  parse_rules (cons v vs) = do rule ← parse_rule v; rules ← parse_rules vs; pure (rule ∷ rules)

  abbrev pub rule_items : Option Json → Result Items
  rule_items (some (list vs)) = ok vs
  rule_items _ = err configuration_error

  abbrev pub repeats : List String → Bool
  repeats [] = false
  repeats (x ∷ xs) = contains xs x || repeats xs

  unfoldable pub load_fields : Fields → Result ReminderConfig
  load_fields payload = do
    event_key ← required_string payload "event_key" 128
    raise_if (not (valid_event_key event_key)) configuration_error
    schema_version ← positive_int (get_field "schema_version" payload)
    max_due ← bounded_int (get_field "max_due_per_tick" payload) (some 100) 1 1000
    raw_rules ← rule_items (get_field "reminders" payload)
    rules ← parse_rules raw_rules
    raise_if (repeats (map rule_id rules)) configuration_error
    pure (record {
      event_key = event_key;
      schema_version = schema_version;
      rules = rules;
      max_due_per_tick = max_due;
    })

  -- `none` is a file that cannot be read, or is not JSON.
  unfoldable pub load_config : Option Json → Result ReminderConfig
  load_config (some (dict payload)) = load_fields payload
  load_config _ = err configuration_error
