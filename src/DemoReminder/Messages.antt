-- ===== src/DemoReminder/Messages.antt =====
-- publishers/demo-reminder/src/demo_reminder/messages.py, and the payload of client.py. `stamp` is
-- `strftime("%m-%d %H:%M")` of the local time, `offset` the local offset from UTC in minutes, rounded
-- down; `isoformat` is the text of a moment in whole seconds, with "Z" for the offset.
use hermes_event_server.Base.{
  ℕ, ◌+◌, ◌-◌, ◌/◌, ◌%◌, String, Option, none, some, [], ◌∷◌, ltb, nat_beq, if◌then◌else◌,
}
use hermes_event_server.Base.Int.{ℤ, pos, negsuc, pos_part, neg_part}
use hermes_event_server.Base.Format.{concat, decimal}
use hermes_event_server.Json.{Fields, str, int, dict, end, field}
use hermes_event_server.Models.{Time}
use hermes_event_server.DemoReminder.{humanize_delay}
use hermes_event_server.DemoReminder.Service.{ReminderRequest}

pub record Display : Type 0 where
  pub stamp : Time → String
  pub offset : Time → Option ℤ
  pub isoformat : Time → String

-- `{n:02d}`
abbrev pub two_digits : ℕ → String
two_digits n = if ltb n 10 then concat ("0" ∷ decimal n ∷ []) else decimal n

abbrev pub sign : ℤ → String
sign (pos n) = "+"
sign (negsuc n) = "-"

-- `_offset_label`
abbrev pub offset_label : Option ℤ → String
offset_label none = "UTC"
offset_label (some z) =
    let total = pos_part z + neg_part z in
    concat ("UTC" ∷ sign z ∷ two_digits (total / 60) ∷ ":" ∷ two_digits (total % 60) ∷ [])

module _ (display : Display) where
  -- `to_utc_iso`
  unfoldable pub to_utc_iso : Time → String
  to_utc_iso t = display.isoformat (t - t % 1_000_000)

  -- `_timing`
  unfoldable pub timing_text : ReminderRequest → String
  timing_text request =
      let when = concat (
        "提醒时间："
        ∷ display.stamp request.notify_at
        ∷ "（"
        ∷ offset_label (display.offset request.notify_at)
        ∷ "，"
        ∷ []) in
      if nat_beq request.delay_seconds 0
      then concat (when ∷ "立即触发）" ∷ [])
      else concat (when ∷ humanize_delay request.delay_seconds ∷ "后）" ∷ [])

  abbrev pub reminder_data : ReminderRequest → Fields
  reminder_data request = field "request_id" (str request.request_id) (
      field "delay_seconds" (int (pos request.delay_seconds))
        (field "notify_at" (str (to_utc_iso request.notify_at)) end))

  -- `render`
  unfoldable pub render_reminder : String → ReminderRequest → Fields
  render_reminder event_key request = field "title" (str request.title) (
      field "text" (str (concat (request.text ∷ "\n" ∷ timing_text request ∷ []))) (
        field "data" (dict (reminder_data request)) (
          field "template_key" (str (concat (event_key ∷ ".default" ∷ [])))
            (field "template_version" (int (pos 1)) end))))

  -- `build_payload`
  unfoldable pub build_payload : String → ReminderRequest → Fields
  build_payload event_key request = field "event_key" (str event_key) (
      field "schema_version" (int (pos 1)) (
        field "dedupe_key" (str request.dedupe_key) (
          field "occurred_at" (str (to_utc_iso request.requested_at)) (
            field "notify_at" (str (to_utc_iso request.notify_at)) (
              field "subject"
                (dict (field "type" (str "reminder") (field "id" (str request.request_id) end)))
                (field "data" (dict (reminder_data request)) (
                  field "metadata" (dict (field "source" (str "demo-reminder") end)) (
                    field "messages"
                      (dict (field "default" (dict (render_reminder event_key request)) end))
                      end))))))))
