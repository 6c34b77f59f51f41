-- ===== src/ScheduledReminder/Publisher.antt =====
-- publishers/scheduled-reminder/src/scheduled_reminder/main.py, and the event of client.py: one cycle
-- of the publisher. `utc_text` is a moment's `isoformat`, with "Z" for the offset. What the server
-- does with an event is an argument: `none` is a response with status 200.
use hermes_event_server.Base.{
  ℕ, String, Bool, ◌&&◌, ◌||◌, Option, none, some, List, [], ◌∷◌, ◌++◌, ltb, nat_beq, sort_by,
  length,
}
use hermes_event_server.Base.Equality.{string_eq, nat_eq, pair_eq}
use hermes_event_server.Base.Action.{
  Error, runtime_error, Result, ok, err, Action, pure, lift, gets, modify, raise_if, ◌>>=◌, ◌>>◌,
}
use hermes_event_server.Json.{Fields, int, str, dict, end, field}
use hermes_event_server.Models.{Time}
use hermes_event_server.Base.Int.{pos}
use hermes_event_server.Base.Text.{text_le}
use hermes_event_server.Base.Format.{concat}
use hermes_event_server.ScheduledReminder.{Zone, ReminderRule, weekly, interval, ReminderConfig}
use hermes_event_server.ScheduledReminder.Scheduling.{DueReminder, due_between}

-- What the publisher keeps, and the events that the server has taken from it.
pub record Publisher : Type 0 where
  pub last_checked_at : Option Time
  pub published : List DueReminder

-- `sorted` compares the moments and then the ids.
abbrev pub due_first : DueReminder → DueReminder → Bool
due_first a b =
    ltb a.scheduled_for b.scheduled_for
    || (nat_beq a.scheduled_for b.scheduled_for && text_le a.reminder_id b.reminder_id)

abbrev pub rule_kind : ReminderRule → String
rule_kind (weekly rule) = "weekly"
rule_kind (interval rule) = "interval"

abbrev pub rule_zone : ReminderRule → Zone
rule_zone (weekly rule) = rule.timezone
rule_zone (interval rule) = rule.timezone

abbrev pub rule_title : ReminderRule → String
rule_title (weekly rule) = rule.title
rule_title (interval rule) = rule.title

abbrev pub rule_text : ReminderRule → String
rule_text (weekly rule) = rule.text
rule_text (interval rule) = rule.text

abbrev pub dedupe_key_of : (Time → String) → DueReminder → String
dedupe_key_of utc_text due = concat (due.reminder_id ∷ ":" ∷ utc_text due.scheduled_for ∷ [])

-- The payload of `EventServerClient.publish`.
unfoldable pub event_payload : (Time → String) → ReminderConfig → DueReminder → Fields
event_payload utc_text config due =
    let scheduled_at = str (utc_text due.scheduled_for) in
    let title = str (rule_title due.rule) in
    field "event_key" (str config.event_key) (
      field "schema_version" (int (pos config.schema_version)) (
        field "dedupe_key" (str (dedupe_key_of utc_text due)) (
          field "occurred_at" scheduled_at (
            field "subject"
              (dict (field "type" (str "reminder") (field "id" (str due.reminder_id) end)))
              (field "data"
                (dict (
                  field "reminder_id" (str due.reminder_id) (
                    field "schedule_kind" (str (rule_kind due.rule)) (
                      field "scheduled_for" scheduled_at (
                        field "timezone" (str (rule_zone due.rule).name)
                          (field "title" title end))))))
                (field "metadata" (dict (field "source" (str "scheduled-reminder") end)) (
                  field "messages"
                    (dict (
                      field "default"
                        (dict (
                          field "title" title (
                            field "text" (str (rule_text due.rule)) (
                              field "data"
                                (dict (
                                  field "reminder_id" (str due.reminder_id)
                                    (field "scheduled_for" scheduled_at end)))
                                (field "template_key" (str "reminder.scheduled.triggered.default")
                                  (field "template_version" (int (pos 1)) end))))))
                        end))
                    end)))))))

-- The occurrences of all rules, in the order of the rules; the first error ends the search.
unfoldable pub all_due : List ReminderRule → Time → Time → Result (List DueReminder)
all_due [] after until = ok []
all_due (rule ∷ rules) after until = elim (due_between rule after until) [
  | err e ↦ err e
  | ok due ↦ elim (all_due rules after until) [ err e ↦ err e | ok rest ↦ ok (due ++ rest) ]
]

abbrev pub note : DueReminder → Publisher → Publisher
note due p = record p { published = p.published ++ due ∷ [] }

abbrev pub checked : Time → Publisher → Publisher
checked now p = record p { last_checked_at = some now }

module _ (utc_text : Time → String) (server : Fields → Option Error) where
  -- `EventServerClient.publish`
  abbrev pub post : ReminderConfig → DueReminder → Action Publisher (Unit {0})
  post config due p = elim (server (event_payload utc_text config due)) [
    | none ↦ (ok tt, note due p)
    | some e ↦ (err e, p)
  ]

  unfoldable pub post_all : ReminderConfig → List DueReminder → Action Publisher (Unit {0})
  post_all config [] = pure tt
  post_all config (due ∷ rest) = do post config due; post_all config rest

  abbrev pub due_list : ReminderConfig → Time → Time → Result (List DueReminder)
  due_list config after until = elim (all_due config.rules after until) [
    | err e ↦ err e
    | ok due ↦ ok (sort_by due_first due)
  ]

  -- A cycle after the first one.
  unfoldable pub check : ReminderConfig → Time → Time → Action Publisher ℕ
  check config last now = do
    due ← lift (due_list config last now)
    raise_if (ltb config.max_due_per_tick (length due)) runtime_error
    post_all config due
    modify (checked now)
    pure (length due)

  abbrev pub check_from : ReminderConfig → Option Time → Time → Action Publisher ℕ
  check_from config none now = do modify (checked now); pure 0
  check_from config (some last) now = check config last now

  -- `run_once`; `loaded` is what load_config returns or raises.
  unfoldable pub run_once : Result ReminderConfig → Time → Action Publisher ℕ
  run_once loaded now = do
    config ← lift loaded
    last ← gets (λ p. p.last_checked_at)
    check_from config last now
