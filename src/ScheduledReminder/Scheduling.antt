-- ===== src/ScheduledReminder/Scheduling.antt =====
-- publishers/scheduled-reminder/src/scheduled_reminder/scheduling.py. The bounds are moments, so aware.
-- The loop of `_interval_due` has fuel for every index up to the first candidate after `until`.
use hermes_event_server.Base.{
  ℕ, zero, suc, ◌+◌, ◌-◌, ◌*◌, ◌/◌, ◌%◌, String, not, ◌&&◌, Option, none, some, List, [], ◌∷◌, ◌++◌,
  map, ltb, leb, nat_beq, if◌then◌else◌,
}
use hermes_event_server.Base.Equality.{contains, nat_eq}
use hermes_event_server.Base.Action.{Result, ok, err, zero_division_error}
use hermes_event_server.Models.{Time}
use hermes_event_server.ScheduledReminder.{
  Zone, WeeklyRule, IntervalRule, ReminderRule, weekly, interval, minutes,
}

pub record DueReminder : Type 0 where
  pub scheduled_for : Time
  pub reminder_id : String
  pub rule : ReminderRule

abbrev pub day : Time
day = 86_400_000_000

-- The moment of the wall time with a fold, if it is one and is not `existing`.
abbrev pub occurrence : Zone → Time → ℕ → List Time → List Time
occurrence zone naive fold existing =
    let candidate = zone.utc_time naive fold in
    if nat_beq (zone.local_time candidate) naive && not (contains existing candidate)
    then candidate ∷ []
    else []

-- `_valid_local_occurrences`, as moments.
unfoldable pub valid_local_occurrences : Time → Zone → List Time
valid_local_occurrences naive zone =
    let first = occurrence zone naive 0 [] in first ++ occurrence zone naive 1 first

abbrev pub within : Time → Time → List Time → List Time
within after until [] = []
within after until (t ∷ ts) =
    if ltb after t && leb t until then t ∷ within after until ts else within after until ts

-- The moments of a day, which is counted from `datetime.min`, a Monday.
unfoldable pub times_of_day : WeeklyRule → Time → Time → ℕ → List Time → List Time
times_of_day rule after until date [] = []
times_of_day rule after until date (t ∷ ts) =
    within after until (valid_local_occurrences (date * day + t) rule.timezone)
    ++ times_of_day rule after until date ts

abbrev pub moments_of_day : WeeklyRule → Time → Time → ℕ → List Time
moments_of_day rule after until date =
    if contains rule.weekdays (date % 7) then times_of_day rule after until date rule.times else []

-- The loop over `left` days from `date` on.
unfoldable pub moments_of_days : WeeklyRule → Time → Time → ℕ → ℕ → List Time
moments_of_days rule after until zero date = []
moments_of_days rule after until (suc left) date =
    moments_of_day rule after until date ++ moments_of_days rule after until left (suc date)

abbrev pub due_reminder : String → ReminderRule → Time → DueReminder
due_reminder id rule t = record { scheduled_for = t; reminder_id = id; rule = rule }

-- `_weekly_due`
unfoldable pub weekly_due : WeeklyRule → Time → Time → List DueReminder
weekly_due rule after until =
    let first = rule.timezone.local_time after / day in
    let last = rule.timezone.local_time until / day in
    map (due_reminder rule.reminder_id (weekly rule))
      (moments_of_days rule after until (suc last - first) first)

abbrev pub add_due : Time → Time → Option (List Time) → Option (List Time)
add_due after candidate none = none
add_due after candidate (some due) = some (if ltb after candidate then candidate ∷ due else due)

-- The loop from an index on; `none` is a loop that ran out of fuel.
unfoldable pub interval_loop : Time → Time → Time → Time → ℕ → ℕ → Option (List Time)
interval_loop anchor period after until zero index = none
interval_loop anchor period after until (suc fuel) index =
    let rest = interval_loop anchor period after until fuel (suc index) in
    let candidate = anchor + index * period in
    if ltb until candidate then some [] else add_due after candidate rest

-- `max(0, int(elapsed // period) + 1)`; the quotient is negative before the anchor.
unfoldable pub first_index : Time → Time → Time → ℕ
first_index anchor period after = if leb anchor after then (after - anchor) / period + 1 else 0

abbrev pub rounds : Time → Time → Time → ℕ
rounds anchor period until = (until - anchor) / period + 2

abbrev pub or_nothing : Option (List Time) → List Time
or_nothing none = []
or_nothing (some due) = due

unfoldable pub interval_moments : Time → Time → Time → Time → List Time
interval_moments anchor period after until = or_nothing (
    interval_loop anchor period after until (rounds anchor period until)
      (first_index anchor period after))

-- `_interval_due`
unfoldable pub interval_due : IntervalRule → Time → Time → Result (List DueReminder)
interval_due rule after until =
    let period = minutes rule.every_minutes in
    if ltb until rule.anchor_at
    then ok []
    else if nat_beq period 0
    then err zero_division_error
    else ok (
        map (due_reminder rule.reminder_id (interval rule))
          (interval_moments rule.anchor_at period after until))

unfoldable pub due_between : ReminderRule → Time → Time → Result (List DueReminder)
due_between rule after until = if leb until after then ok [] else elim rule [
  | weekly w ↦ ok (weekly_due w after until)
  | interval i ↦ interval_due i after until
]
