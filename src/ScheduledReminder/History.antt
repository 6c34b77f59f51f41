-- ===== src/ScheduledReminder/History.antt =====
-- Histories of the cycles of one process: failing ones between those that succeed, under one
-- configuration. A process that has ended forgets its last check; what a restart misses is not covered.
use hermes_event_server.Base.{
  ℕ, String, ◌≡◌, sym, subst, ◌∙◌, inl, inr, Bool, true, false, Option, some, List, [], ◌∷◌, arith,
  if◌then◌else◌, sort_by, Bool-cases,
}
use hermes_event_server.Base.Equality.{string_eq, nat_eq, pair_eq}
use hermes_event_server.Base.Action.{
  Error, configuration_error, value_error, publish_error, Result, ok, err,
}
use hermes_event_server.Json.{Fields}
use hermes_event_server.Models.{Time}
use hermes_event_server.ScheduledReminder.{ReminderRule, ReminderConfig}
use hermes_event_server.ScheduledReminder.Scheduling.{DueReminder}
use hermes_event_server.ScheduledReminder.Publisher.{
  Publisher, due_first, check, check_from, run_once,
}
use hermes_event_server.ScheduledReminder.Schedules.{
  is_at, Schedules, Reaches, Reaches-Includes, Reaches-join, all_due-Reaches, any-sort_by,
}
use hermes_event_server.ScheduledReminder.Cycles.{Checked, check-Checked}

-- A cycle: its time, whether the configuration can be read, and how the server answers.
pub record Cycle : Type 0 where
  pub now : Time
  pub readable : Bool
  pub server : Fields → Option Error

-- `except (OSError, ValueError, PublishError)`: a ConfigurationError is a ValueError, the RuntimeError
-- of too many due reminders is none of them.
abbrev pub is_caught : Error → Bool
is_caught configuration_error = true
is_caught value_error = true
is_caught publish_error = true
is_caught _ = false

abbrev pub goes_on : Result ℕ → Bool
goes_on (ok n) = true
goes_on (err e) = is_caught e

Reaches-none :
    (s : Time) (notes : List DueReminder) (rules : List ReminderRule) (h : Schedules rules)
    → Reaches s s notes rules h
Reaches-none s notes [] h = tt
Reaches-none s notes (rule ∷ rules) h =
    (λ t a b o. absurd (omega (arith, a, b)), Reaches-none s notes rules h.1)

module _ (utc_text : Time → String) (config : ReminderConfig) (h : Schedules config.rules) where
  abbrev loaded : Bool → Result ReminderConfig
  loaded readable = if readable then ok config else err configuration_error

  -- `serve` goes on after a cycle that returns or raises what it catches; another exception ends the
  -- process, and the publisher is left as that cycle left it.
  unfoldable pub run : List Cycle → Publisher → Publisher
  run [] p = p
  run (c ∷ cs) p =
      let r = run_once utc_text c.server (loaded c.readable) c.now p in
      let later = run cs r.1 in if goes_on r.0 then later else r.1

  -- The last check was at `l`, and everything that occurs from s to `l` is published.
  abbrev pub IsCovered : Time → Publisher → Type 0
  IsCovered s p = (l : Time) × (p.last_checked_at ≡ some l) × Reaches s l p.published config.rules h

  Checked-IsCovered :
      (s l now : Time) (due : List DueReminder) (p : Publisher) (r : Result ℕ × Publisher)
      (server : Fields → Option Error)
      → p.last_checked_at ≡ some l
      → Reaches s l p.published config.rules h
      → Reaches l now due config.rules h
      → Checked utc_text server (sort_by due_first due) now p r
      → IsCovered s r.1
  Checked-IsCovered s l now due p r server e c d (b, inl same) =
      (l, same ∙ e, Reaches-Includes s l p.published r.1.published config.rules h b c)
  Checked-IsCovered s l now due p r server e c d (b, inr (new, f)) = (
    now,
    new,
    Reaches-join s l now r.1.published config.rules h
        (Reaches-Includes s l p.published r.1.published config.rules h b c)
        (Reaches-Includes l now due r.1.published config.rules h
          (λ id t m. f id t (rw (any-sort_by (is_at id t) due_first due) m)) d),
  )

  run_once-IsCovered :
      (s now : Time) (readable : Bool) (server : Fields → Option Error) (p : Publisher)
      → IsCovered s p
      → IsCovered s (run_once utc_text server (loaded readable) now p).1
  unfolding run_once
  run_once-IsCovered s now false server p (l, e, r) = (l, e, r)
  run_once-IsCovered s now true server p (l, e, r) =
      let (due, found, d) = all_due-Reaches config.rules l now h in
      subst (λ last. IsCovered s (check_from utc_text server config last now p).1) (sym e)
        (Checked-IsCovered s l now due p (check utc_text server config l now p) server e r d
          (check-Checked utc_text server config due l now p found))

  history_keeps :
      (s : Time) (cycles : List Cycle) (p : Publisher) → IsCovered s p → IsCovered s (run cycles p)
  unfolding run
  history_keeps s [] p c = c
  history_keeps s (x ∷ xs) p c =
      let r = run_once utc_text x.server (loaded x.readable) x.now p in
      let kept : IsCovered s r.1 = run_once-IsCovered s x.now x.readable x.server p c in
      elim (Bool-cases (goes_on r.0)) [
        | inl more ↦ rw more (history_keeps s xs r.1 kept)
        | inr ended ↦ rw ended kept
      ]

  -- Where each rule of the configuration has a schedule: after any sequence of cycles of one process,
  -- of which some may not read the configuration or fail to publish, up to one that ends the process
  -- by an exception that `serve` does not catch, the publisher has a time of its last check, and each reminder that a rule's schedule names after the time of the
  -- check that the sequence began with, and not after that of the last check, is published.
  pub run-IsCovered :
      (s : Time) (cycles : List Cycle) (p : Publisher)
      → p.last_checked_at ≡ some s
      → IsCovered s (run cycles p)
  run-IsCovered s cycles p e =
      history_keeps s cycles p (s, e, Reaches-none s p.published config.rules h)
