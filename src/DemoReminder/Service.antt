-- ===== src/DemoReminder/Service.antt =====
-- publishers/demo-reminder/src/demo_reminder/service.py, with models.py, and the event of client.py.
-- `is_dedupe_key` is the match of
-- DEDUPE_PATTERN; `fromisoformat` has no value where it raises ValueError. A moment past
-- `datetime.max` is not looked at.
use hermes_event_server.Base.{
  ℕ, ◌+◌, ◌-◌, ◌/◌, ◌^◌, String, Bool, ◌&&◌, ◌||◌, Option, none, some, is_some, ltb, if◌then◌else◌,
}
use hermes_event_server.Base.Equality.{◌==◌, string_eq, nat_eq, pair_eq}
use hermes_event_server.Base.Action.{Result, ok, err, submission_error}
use hermes_event_server.Json.{Json, int, float, str, is_truthy}
use hermes_event_server.Models.{Time, seconds}
use hermes_event_server.Base.Int.{pos}
use hermes_event_server.Base.Text.{text_length}
use hermes_event_server.Base.Fallible.{pure, raise_if, ◌>>=◌, ◌>>◌}
use hermes_event_server.Registry.{Datetime, aware, naive}
use hermes_event_server.DemoReminder.{Python, parse_delay}

pub record PublisherSettings : Type 0 where
  pub default_delay_seconds : ℕ
  pub max_delay_seconds : ℕ

pub record ReminderRequest : Type 0 where
  pub request_id : String
  pub dedupe_key : String
  pub title : String
  pub text : String
  pub delay_seconds : ℕ
  pub requested_at : Time
  pub notify_at : Time

-- What `submit` is given; `none` is None. `at` comes as a text, in JSON or on the command line.
pub record Submission : Type 0 where
  pub text : Option Json
  pub title : Option Json
  pub delay : Option Json
  pub delay_seconds : Option Json
  pub moment : Option Json
  pub dedupe_key : Option Json

pub record Formats : Type 0 where
  pub python : Python
  pub is_dedupe_key : String → Bool
  pub fromisoformat : String → Option Datetime

abbrev pub default_title : String
default_title = "演示提醒"

-- `if dedupe_key`
abbrev pub given : Option Json → Option Json
given none = none
given (some v) = if is_truthy v then some v else none

abbrev pub is_several : Option Json → Option Json → Option Json → Bool
is_several a b c =
    (is_some a && is_some b) || ((is_some a && is_some c) || (is_some b && is_some c))

abbrev pub aware_time : Option Datetime → Result Time
aware_time none = err submission_error
aware_time (some naive) = err submission_error
aware_time (some (aware t)) = ok t

module _ (formats : Formats) where
  abbrev pub bounded_text : ℕ → String → Result String
  bounded_text limit s = if ltb limit (text_length s) then err submission_error else ok s

  -- `_clean_text`
  unfoldable pub clean_text : Option Json → Result String
  clean_text (some (str s)) =
      let text = formats.python.strip s in
      if text == "" then err submission_error else bounded_text 500 text
  clean_text _ = err submission_error

  -- `_clean_title`
  unfoldable pub clean_title : Option Json → Result String
  clean_title none = ok default_title
  clean_title (some (str s)) =
      let title = formats.python.strip s in
      if title == "" then ok default_title else bounded_text 100 title
  clean_title _ = err submission_error

  -- `_clean_dedupe_key`
  unfoldable pub clean_dedupe_key : Json → Result String
  clean_dedupe_key (str s) = if formats.is_dedupe_key s then ok s else err submission_error
  clean_dedupe_key _ = err submission_error

  -- `_parse_seconds`
  unfoldable pub parse_seconds : Json → Result ℕ
  parse_seconds (int (pos n)) = ok n
  parse_seconds (float (pos m) k) = ok (m / 2 ^ k)
  parse_seconds _ = err submission_error

  -- `_parse_absolute`
  unfoldable pub parse_absolute : Json → Result Time
  parse_absolute (str s) = aware_time (formats.fromisoformat s)
  parse_absolute _ = err submission_error

  -- A delay from the time of the request.
  abbrev pub after_delay : Time → Result ℕ → Result (Time × ℕ)
  after_delay requested_at delay = do n ← delay; pure (requested_at + seconds n, n)

  -- `max(0, int((notify_at - requested_at).total_seconds()))`; subtraction on ℕ stops at 0.
  abbrev pub until_moment : Time → Result Time → Result (Time × ℕ)
  until_moment requested_at moment = do
    notify_at ← moment
    pure (notify_at, (notify_at - requested_at) / 1_000_000)

  abbrev pub timing :
      PublisherSettings → Time → Option Json → Option Json → Option Json → Result (Time × ℕ)
  timing settings requested_at delay delay_seconds (some value) =
      until_moment requested_at (parse_absolute value)
  timing settings requested_at none none none =
      after_delay requested_at (ok settings.default_delay_seconds)
  timing settings requested_at delay (some value) none =
      after_delay requested_at (parse_seconds value)
  timing settings requested_at (some value) none none =
      after_delay requested_at (parse_delay formats.python value settings.max_delay_seconds)

  -- `_resolve_timing`
  unfoldable pub resolve_timing :
      PublisherSettings → Time → Option Json → Option Json → Option Json → Result (Time × ℕ)
  resolve_timing settings requested_at delay delay_seconds moment = do
    raise_if (is_several delay delay_seconds moment) submission_error
    t ← timing settings requested_at delay delay_seconds moment
    raise_if (ltb settings.max_delay_seconds t.1) submission_error
    pure t

  abbrev pub key_or : String → Option Json → Result String
  key_or fresh none = ok fresh
  key_or fresh (some value) = clean_dedupe_key value

  -- `submit`, up to the publication; `fresh` is `uuid4().hex`.
  unfoldable pub submit : PublisherSettings → Time → String → Submission → Result ReminderRequest
  submit settings requested_at fresh s = do
    t ← resolve_timing settings requested_at s.delay s.delay_seconds s.moment
    key ← key_or fresh (given s.dedupe_key)
    title ← clean_title s.title
    text ← clean_text s.text
    pure (record {
      request_id = key;
      dedupe_key = key;
      title = title;
      text = text;
      delay_seconds = t.1;
      requested_at = requested_at;
      notify_at = t.0;
    })
