-- ===== src/ScheduledReminder.antt =====
-- publishers/scheduled-reminder/src/scheduled_reminder: the rules of config.py, which the schedules of
-- scheduling.py and the publisher of main.py work on. A zone is a `ZoneInfo`: `local_time` is the wall
-- time of a moment, `utc_time` the moment of a wall time with a fold. Wall times count microseconds
-- from `datetime.min` too.
pub mod Config
pub mod Numbers
pub mod Valid
pub mod Interval
pub mod Weekly
pub mod Scheduling
pub mod Publisher
pub mod Schedules
pub mod Cycles
pub mod History
use hermes_event_server.Base.{ℕ, ◌*◌, String, List}
use hermes_event_server.Models.{Time}

pub record Zone : Type 0 where
  pub name : String
  pub local_time : Time → Time
  pub utc_time : Time → ℕ → Time

-- `weekdays` counts from Monday, `times` are microseconds of a day.
pub record WeeklyRule : Type 0 where
  pub reminder_id : String
  pub title : String
  pub text : String
  pub timezone : Zone
  pub weekdays : List ℕ
  pub times : List Time

pub record IntervalRule : Type 0 where
  pub reminder_id : String
  pub title : String
  pub text : String
  pub timezone : Zone
  pub anchor_at : Time
  pub every_minutes : ℕ

pub data ReminderRule : Type 0 where
  weekly : WeeklyRule → ReminderRule
  interval : IntervalRule → ReminderRule

abbrev pub rule_id : ReminderRule → String
rule_id (weekly rule) = rule.reminder_id
rule_id (interval rule) = rule.reminder_id

pub record ReminderConfig : Type 0 where
  pub event_key : String
  pub schema_version : ℕ
  pub rules : List ReminderRule
  pub max_due_per_tick : ℕ

abbrev pub minutes : ℕ → Time
minutes n = n * 60_000_000
