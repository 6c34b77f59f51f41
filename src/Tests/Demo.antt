-- ===== src/Tests/Demo.antt =====
-- Runs of the demo reminder, and of the administration of publishers.
use hermes_event_server.Base.{
  ℕ, zero, suc, ◌+◌, ◌-◌, ◌*◌, ◌/◌, ◌%◌, ◌^◌, ◌≤◌, ◌<◌, min, max, String, ◌≡◌, refl, sym, ap, subst,
  ◌∙◌, ◌≢◌, ◌↔◌, ◌⊎◌, inl, inr, Bool, true, false, not, ◌&&◌, ◌||◌, Option, none, some, List, [],
  ◌∷◌, ◌++◌, map, arith, All, is_some, get_or, ltb, leb, nat_beq, if◌then◌else◌, ltb→lt, leb→le,
  Bool-cases, Option-cases, take, select, any, insert_by, sort_by, length, length-append,
  length-map, length-take-le, All-take, All-append, All-select, All-select_of, All-insert_by,
  All-sort_by, All-map2,
}
use hermes_event_server.Base.Equality.{string_eq, nat_eq, pair_eq, string_discrete}
use hermes_event_server.Base.Table.{get}
use hermes_event_server.Base.Action.{submission_error, ok, err}
use hermes_event_server.Json.{str}
use hermes_event_server.Models.{EventPublisher, Database, empty_database}
use hermes_event_server.Base.Int.{pos}
use hermes_event_server.Base.Text.{text_length}
use hermes_event_server.Registry.{aware}
use hermes_event_server.DemoReminder.{Python, parse_delay, humanize_delay}
use hermes_event_server.DemoReminder.Service.{
  PublisherSettings, ReminderRequest, Submission, Formats, submit,
}
use hermes_event_server.DemoReminder.Timing.{IsReminder, submit-IsReminder}
use hermes_event_server.Administration.{publisher_row}
use Prim.Native.Char.{code}

abbrev python : Python
python = record {
  strip = (λ s. s);
  lower = (λ s. s);
  decimal_digit = (λ c. if leb 48 (code c) && leb (code c) 57 then some (code c - 48) else none);
  is_space = (λ c. nat_beq (code c) 32);
  minutes_of_float = (λ m k. pos 0);
}

abbrev formats : Formats
formats = record {
  python = python;
  is_dedupe_key = (λ s. leb 1 (text_length s) && leb (text_length s) 128);
  fromisoformat = (λ s. some (aware 90_000_000));
}

abbrev settings : PublisherSettings
settings = record { default_delay_seconds = 300; max_delay_seconds = 3600 }

delay_run : parse_delay python (str "10 min") 3600 ≡ ok 600
unfolding parse_delay hermes_event_server.DemoReminder.match_delay
    hermes_event_server.DemoReminder.take_digits hermes_event_server.DemoReminder.all_letters
    hermes_event_server.DemoReminder.skip_spaces string_discrete get
delay_run = refl

long_delay_run : parse_delay python (str "2h") 3600 ≡ err submission_error
unfolding parse_delay hermes_event_server.DemoReminder.match_delay
    hermes_event_server.DemoReminder.take_digits hermes_event_server.DemoReminder.all_letters
    hermes_event_server.DemoReminder.skip_spaces string_discrete get
long_delay_run = refl

unknown_unit_run : parse_delay python (str "5d") 3600 ≡ err submission_error
unfolding parse_delay hermes_event_server.DemoReminder.match_delay
    hermes_event_server.DemoReminder.take_digits hermes_event_server.DemoReminder.all_letters
    hermes_event_server.DemoReminder.skip_spaces string_discrete get
unknown_unit_run = refl

text_run : humanize_delay 3725 ≡ "1 小时 2 分钟 5 秒"
unfolding humanize_delay hermes_event_server.Base.Format.decimal
text_run = refl

abbrev submission : Submission
submission = record {
  text = some (str "tea");
  title = none;
  delay = some (str "5m");
  delay_seconds = none;
  moment = none;
  dedupe_key = none;
}

abbrev reminder : ReminderRequest
reminder = record {
  request_id = "k";
  dedupe_key = "k";
  title = "演示提醒";
  text = "tea";
  delay_seconds = 300;
  requested_at = 1000;
  notify_at = 300_001_000;
}

submit_run : submit formats settings 1000 "k" submission ≡ ok reminder
unfolding submit hermes_event_server.DemoReminder.Service.resolve_timing parse_delay
    hermes_event_server.DemoReminder.match_delay hermes_event_server.DemoReminder.take_digits
    hermes_event_server.DemoReminder.all_letters hermes_event_server.DemoReminder.skip_spaces
    string_discrete get hermes_event_server.DemoReminder.Service.clean_title
    hermes_event_server.DemoReminder.Service.clean_text
submit_run = refl

submit-IsReminder_example : IsReminder formats settings 1000 "k" submission reminder
submit-IsReminder_example =
    submit-IsReminder formats settings 1000 "k" submission reminder submit_run

abbrev token : String
token = "0123456789abcdef0123456789abcdef"

abbrev earlier : EventPublisher
earlier = record {
  publisher_key = "demo";
  token_hash = "old";
  allowed_event_prefixes = [];
  description = "";
  enabled = true;
}

abbrev publishers_db : Database
publishers_db = record empty_database { publishers = earlier ∷ [] }

abbrev stored_db : Database
stored_db = record empty_database {
  publishers = publisher_row "demo" token ("demo.reminder." ∷ []) "d" ∷ [];
}

abbrev identity : String → String
identity s = s
