-- ===== src/Tests/Reminders.antt =====
-- Runs of the scheduled reminders.
use hermes_event_server.Base.{
  suc, ◌+◌, ◌-◌, ◌/◌, ◌≤◌, ◌<◌, ◌≡◌, refl, ◌↔◌, true, not, none, some, List, [], ◌∷◌, map, arith,
  sort_by,
}
use hermes_event_server.Base.Equality.{◌==◌, contains, string_eq, nat_eq, pair_eq, string_discrete}
use hermes_event_server.Base.Action.{publish_error, ok}
use hermes_event_server.Json.{Json, int, str, list, dict, nil, cons, end, field}
use hermes_event_server.Models.{Time}
use hermes_event_server.Base.Int.{pos}
use hermes_event_server.Registry.{aware}
use hermes_event_server.ScheduledReminder.{
  Zone, WeeklyRule, IntervalRule, ReminderRule, weekly, interval, rule_id, ReminderConfig, minutes,
}
use hermes_event_server.ScheduledReminder.Scheduling.{
  day, interval_moments, interval_loop, rounds, first_index, moments_of_days,
}
use hermes_event_server.ScheduledReminder.Interval.{
  Ascends, IsTick, interval_loop-ends, interval_moments_exact,
}
use hermes_event_server.ScheduledReminder.Weekly.{IsSlot, weekly_exact}
use hermes_event_server.ScheduledReminder.Config.{Formats, load_config}
use hermes_event_server.ScheduledReminder.Valid.{IsValid, load_config-IsValid}
use hermes_event_server.ScheduledReminder.Publisher.{Publisher}
use hermes_event_server.ScheduledReminder.Schedules.{Schedules, interval_schedule, weekly_schedule}
use hermes_event_server.ScheduledReminder.History.{Cycle, run, IsCovered, run-IsCovered}

moments_run : interval_moments 100 10 115 140 ≡ 120 ∷ 130 ∷ 140 ∷ []
unfolding interval_moments interval_loop first_index
moments_run = refl

interval_loop-ends_example :
    interval_loop 100 10 115 140 (rounds 100 10 140 + 5) (first_index 100 10 115)
    ≡ some (interval_moments 100 10 115 140)
interval_loop-ends_example = interval_loop-ends 100 10 115 140 (omega arith) 5

interval_moments_exact_example :
    Ascends (interval_moments 100 10 115 140)
    × ((t : Time)
        → (contains (interval_moments 100 10 115 140) t ≡ true)
          ↔ (115 < t) × (t ≤ 140) × IsTick 100 10 t)
interval_moments_exact_example = interval_moments_exact 100 10 115 140 (omega arith)

-- A zone whose clock is UTC's.
abbrev utc : Zone
utc = record { name = "UTC"; local_time = (λ t. t); utc_time = (λ t fold. t) }

abbrev mondays : WeeklyRule
mondays = record {
  reminder_id = "w";
  title = "W";
  text = "w";
  timezone = utc;
  weekdays = 0 ∷ [];
  times = minutes 540 ∷ [];
}

mondays_regular : (u : Time) → contains mondays.times u ≡ true → u < day
mondays_regular u h = ground (arith, h)

dates_advance : (t u : Time) → t ≤ u → t / day ≤ u / day
dates_advance t u h = omega (arith, h)

weekly_exact_example :
    (contains (moments_of_days mondays 5 day (suc (day / day) - 5 / day) (5 / day)) (minutes 540)
      ≡ true)
    ↔ (5 < minutes 540) × (minutes 540 ≤ day) × IsSlot mondays (minutes 540)
weekly_exact_example = weekly_exact mondays 5 day (dates_advance, mondays_regular) (minutes 540)

monday_run : moments_of_days mondays 5 day 2 0 ≡ minutes 540 ∷ []
unfolding moments_of_days native.Mathlib.Decide.ℕ_discrete
    hermes_event_server.ScheduledReminder.Scheduling.times_of_day
    hermes_event_server.ScheduledReminder.Scheduling.valid_local_occurrences
monday_run = refl

abbrev hourly : IntervalRule
hourly = record {
  reminder_id = "h";
  title = "H";
  text = "h";
  timezone = utc;
  anchor_at = 0;
  every_minutes = 60;
}

abbrev config : ReminderConfig
config = record {
  event_key = "a.b.c";
  schema_version = 1;
  rules = interval hourly ∷ weekly mondays ∷ [];
  max_due_per_tick = 100;
}

abbrev schedules : Schedules config.rules
schedules = (
  interval_schedule hourly (omega arith),
  (weekly_schedule mondays (dates_advance, mondays_regular), tt),
)

-- The server is down in the second cycle.
abbrev cycles : List Cycle
cycles =
    record { now = minutes 61; readable = true; server = (λ body. none) }
    ∷ record { now = minutes 130; readable = true; server = (λ body. some publish_error) }
    ∷ record { now = minutes 190; readable = true; server = (λ body. none) }
    ∷ []

abbrev at_one : Publisher
at_one = record { last_checked_at = some 1; published = [] }

run-IsCovered_example :
    IsCovered (λ t. "") config schedules 1 (run (λ t. "") config schedules cycles at_one)
run-IsCovered_example = run-IsCovered (λ t. "") config schedules 1 cycles at_one refl

published_moments :
    map (λ d. d.scheduled_for) (run (λ t. "") config schedules cycles at_one).published
    ≡ minutes 60 ∷ minutes 120 ∷ minutes 180 ∷ []
unfolding run hermes_event_server.ScheduledReminder.Publisher.run_once
    hermes_event_server.ScheduledReminder.Publisher.check
    hermes_event_server.ScheduledReminder.Publisher.all_due
    hermes_event_server.ScheduledReminder.Scheduling.due_between
    hermes_event_server.ScheduledReminder.Scheduling.interval_due sort_by interval_moments
    interval_loop first_index hermes_event_server.ScheduledReminder.Scheduling.weekly_due
    moments_of_days native.Mathlib.Decide.ℕ_discrete
    hermes_event_server.ScheduledReminder.Scheduling.times_of_day
    hermes_event_server.ScheduledReminder.Scheduling.valid_local_occurrences
    hermes_event_server.ScheduledReminder.Publisher.post_all
published_moments = refl

abbrev formats : Formats
formats = record {
  is_alnum = (λ s. not (s == ""));
  lower = (λ s. s);
  split = (λ s. "a" ∷ "b" ∷ "c" ∷ []);
  zone_info = (λ s. some utc);
  fromisoformat = (λ s. some (aware 0));
  time_fromisoformat = (λ s. none);
}

abbrev file : Json
file = dict (
    field "event_key" (str "a.b.c") (
      field "reminders"
        (list (
          cons
            (dict (
              field "id" (str "h") (
                field "title" (str "H") (
                  field "text" (str "h") (
                    field "timezone" (str "UTC") (
                      field "kind" (str "interval") (
                        field "anchor_at" (str "0001-01-01T00:00:00Z")
                          (field "every_minutes" (int (pos 60)) end))))))))
            nil))
        end))

abbrev loaded : ReminderConfig
loaded = record config { rules = interval hourly ∷ [] }

load_run : load_config formats (some file) ≡ ok loaded
unfolding load_config hermes_event_server.ScheduledReminder.Config.load_fields
    hermes_event_server.ScheduledReminder.Config.required_string string_discrete
    hermes_event_server.ScheduledReminder.Config.valid_event_key
    hermes_event_server.ScheduledReminder.Config.parse_rules
    hermes_event_server.ScheduledReminder.Config.parse_fields
    hermes_event_server.ScheduledReminder.Config.parse_interval
    hermes_event_server.ScheduledReminder.Config.aware_datetime
load_run = refl

load_config-IsValid_example : IsValid formats loaded
load_config-IsValid_example = load_config-IsValid formats (some file) loaded load_run
