-- ===== src/ScheduledReminder/Cycles.antt =====
-- Cycles of the publisher: what one leaves.
use hermes_event_server.Base.{
  ℕ, String, ◌≡◌, refl, sym, subst, ◌⊎◌, inl, inr, Option, some, List, [], ◌∷◌, arith, ltb,
  Bool-cases, Option-cases, sort_by, length,
}
use hermes_event_server.Base.Equality.{string_eq, nat_eq, pair_eq}
use hermes_event_server.Base.Action.{
  Error, runtime_error, Result, ok, err, Action, pure, lift, modify, raise_if, bind-ok, bind-err,
  ◌>>◌,
}
use hermes_event_server.Json.{Fields}
use hermes_event_server.Models.{Time}
use hermes_event_server.ScheduledReminder.{ReminderConfig}
use hermes_event_server.ScheduledReminder.Scheduling.{DueReminder}
use hermes_event_server.ScheduledReminder.Publisher.{
  Publisher, event_payload, due_first, all_due, note, checked, post, post_all, due_list, check,
}
use hermes_event_server.ScheduledReminder.Schedules.{is_at, Includes, Includes-left, Includes-right}

module _ (utc_text : Time → String) (server : Fields → Option Error) where
  -- However the posts end, the events before stay published; if they all succeed, these are too.
  abbrev Posted : Publisher → List DueReminder → Result (Unit {0}) × Publisher → Type 0
  Posted p due (ok u, q) =
      (q.last_checked_at ≡ p.last_checked_at)
      × Includes p.published q.published
      × Includes due q.published
  Posted p due (err e, q) =
      (q.last_checked_at ≡ p.last_checked_at) × Includes p.published q.published

  Posted-note :
      (p : Publisher) (d : DueReminder) (ds : List DueReminder) (r : Result (Unit {0}) × Publisher)
      → Posted (note d p) ds r
      → Posted p (d ∷ ds) r
  Posted-note p d ds (ok u, q) (l, b, f) = (
    l,
    λ id t h. b id t (Includes-left p.published (d ∷ []) id t h),
    λ id t h. elim (Bool-cases (is_at id t d)) [
      | inl e ↦ b id t (Includes-right p.published (d ∷ []) id t (rw e refl))
      | inr e ↦ f id t (rw e at h)
    ],
  )
  Posted-note p d ds (err e, q) (l, b) =
      (l, λ id t h. b id t (Includes-left p.published (d ∷ []) id t h))

  post_all-Posted :
      (config : ReminderConfig) (due : List DueReminder) (p : Publisher)
      → Posted p due (post_all utc_text server config due p)
  unfolding post_all
  post_all-Posted config [] p = (refl, λ id t h. h, λ id t h. absurd (ground (arith, h)))
  post_all-Posted config (d ∷ ds) p =
      elim (Option-cases (server (event_payload utc_text config d))) [
        | inl q ↦
            subst (Posted p (d ∷ ds))
              (sym (
                bind-ok (post utc_text server config d) (λ u. post_all utc_text server config ds) p
                  (note d p) tt (rw (post, q) refl)))
              (Posted-note p d ds (post_all utc_text server config ds (note d p))
                (post_all-Posted config ds (note d p)))
        | inr (e, q) ↦
            subst (Posted p (d ∷ ds))
              (sym (
                bind-err (post utc_text server config d) (λ u. post_all utc_text server config ds) p
                  p e (rw (post, q) refl)))
              (refl, λ id t h. h)
      ]

  -- A cycle either leaves the time of the last check, or sets it, with all that was due published.
  abbrev pub Checked : List DueReminder → Time → Publisher → Result ℕ × Publisher → Type 0
  Checked due now p r =
      Includes p.published r.1.published
      × ((r.1.last_checked_at ≡ p.last_checked_at)
          ⊎ (r.1.last_checked_at ≡ some now) × Includes due r.1.published)

  finish-Checked :
      (due : List DueReminder) (n : ℕ) (now : Time) (p : Publisher)
      (r : Result (Unit {0}) × Publisher)
      → Posted p due r
      → Checked due now p (elim r.0 as (λ x. Result ℕ × Publisher) [
        | ok u ↦ (ok n, checked now r.1)
        | err e ↦ (err e, r.1)
      ])
  finish-Checked due n now p (ok u, q) (l, b, f) = (b, inr (refl, f))
  finish-Checked due n now p (err e, q) (l, b) = (b, inl l)

  abbrev after_limit : ReminderConfig → Time → List DueReminder → Action Publisher ℕ
  after_limit config now ds =
      post_all utc_text server config ds >> (modify (checked now) >> pure (length ds))

  abbrev after_due : ReminderConfig → Time → List DueReminder → Action Publisher ℕ
  after_due config now ds =
      raise_if (ltb config.max_due_per_tick (length ds)) runtime_error >> after_limit config now ds

  after_due-Checked :
      (config : ReminderConfig) (ds : List DueReminder) (now : Time) (p : Publisher)
      → Checked ds now p (after_due config now ds p)
  after_due-Checked config ds now p = elim (Bool-cases (ltb config.max_due_per_tick (length ds))) [
    | inl many ↦
        subst (Checked ds now p)
          (sym (
            bind-err (raise_if (ltb config.max_due_per_tick (length ds)) runtime_error)
              (λ u. after_limit config now ds) p p runtime_error (rw many refl)))
          (λ id t h. h, inl refl)
    | inr few ↦
        subst (Checked ds now p)
          (sym (
            bind-ok (raise_if (ltb config.max_due_per_tick (length ds)) runtime_error)
              (λ u. after_limit config now ds) p p tt (rw few refl)))
          (finish-Checked ds (length ds) now p (post_all utc_text server config ds p)
            (post_all-Posted config ds p))
  ]

  pub check-Checked :
      (config : ReminderConfig) (due : List DueReminder) (last now : Time) (p : Publisher)
      → all_due config.rules last now ≡ ok due
      → Checked (sort_by due_first due) now p (check utc_text server config last now p)
  unfolding check
  check-Checked config due last now p h =
      subst (Checked (sort_by due_first due) now p)
        (sym (
          bind-ok (lift (due_list utc_text server config last now)) (after_due config now) p p
            (sort_by due_first due) (rw (due_list, h) refl)))
        (after_due-Checked config (sort_by due_first due) now p)
