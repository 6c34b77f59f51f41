-- ===== src/ScheduledReminder/Schedules.antt =====
-- The schedules of rules: when a rule is due, and that the search of all rules finds it.
use hermes_event_server.Base.{
  suc, ◌-◌, ◌/◌, ◌≤◌, ◌<◌, String, ◌≡◌, refl, ◌↔◌, inl, inr, Bool, true, false, ◌&&◌, ◌||◌, List,
  [], ◌∷◌, ◌++◌, map, arith, All, ltb, leb, nat_beq, Bool-cases, any, insert_by, sort_by,
}
use hermes_event_server.Base.Equality.{◌==◌, contains, string_eq, nat_eq, pair_eq}
use hermes_event_server.Base.Action.{ok}
use hermes_event_server.Models.{Time}
use hermes_event_server.ScheduledReminder.{
  WeeklyRule, IntervalRule, ReminderRule, weekly, interval, rule_id, minutes,
}
use hermes_event_server.ScheduledReminder.Scheduling.{
  DueReminder, due_between, interval_due, weekly_due, moments_of_days, day, interval_moments,
  due_reminder,
}
use hermes_event_server.ScheduledReminder.Weekly.{IsSlot, IsRegular, weekly_exact}
use hermes_event_server.ScheduledReminder.Interval.{IsTick, interval_moments_exact}
use hermes_event_server.ScheduledReminder.Publisher.{all_due}

abbrev pub is_at : String → Time → DueReminder → Bool
is_at id t d = (d.reminder_id == id) && nat_beq d.scheduled_for t

module _ {A : Type 0} (p : A → Bool) where
  pub any-append : (xs ys : List A) → any p (xs ++ ys) ≡ any p xs || any p ys
  any-append [] ys = refl
  any-append (x ∷ xs) ys = ground (arith, any-append xs ys)

  pub any-insert_by :
      (le : A → A → Bool) (x : A) (xs : List A) → any p (insert_by le x xs) ≡ p x || any p xs
  any-insert_by le x [] = refl
  any-insert_by le x (y ∷ ys) = ground (arith, any-insert_by le x ys)

  pub any-sort_by : (le : A → A → Bool) (xs : List A) → any p (sort_by le xs) ≡ any p xs
  unfolding sort_by
  any-sort_by le [] = refl
  any-sort_by le (x ∷ xs) = ground (arith, any-insert_by le x (sort_by le xs), any-sort_by le xs)

pub any-due_reminder :
    (id : String) (rule : ReminderRule) (t : Time) (ts : List Time)
    → any (is_at id t) (map (due_reminder id rule) ts) ≡ contains ts t
any-due_reminder id rule t [] = refl
any-due_reminder id rule t (u ∷ us) = ground (arith, any-due_reminder id rule t us)

-- The schedule of a rule: between any two moments it is due exactly at those that `occurs` names.
pub record Schedule (rule : ReminderRule) : Type 1 where
  pub occurs : Time → Type 0
  pub finds :
      (after until : Time)
      → (due : List DueReminder) × (due_between rule after until ≡ ok due)
        × ((t : Time)
            → (any (is_at (rule_id rule) t) due ≡ true) ↔ (after < t) × (t ≤ until) × occurs t)

pub interval_finds :
    (rule : IntervalRule) (after until : Time)
    → 1 ≤ rule.every_minutes
    → (due : List DueReminder) × (due_between (interval rule) after until ≡ ok due)
      × ((t : Time)
          → (any (is_at rule.reminder_id t) due ≡ true)
            ↔ (after < t) × (t ≤ until) × IsTick rule.anchor_at (minutes rule.every_minutes) t)
unfolding due_between interval_due
interval_finds rule after until h = elim (Bool-cases (leb until after)) [
  | inl q ↦ (
    [],
    rw q refl,
    λ t. (
      λ m. absurd (ground (arith, m)),
      λ m. let (a, b, (k, e)) = m in absurd (ground (arith, q, a, b)),
    ),
  )
  | inr q ↦ elim (Bool-cases (ltb until rule.anchor_at)) [
    | inl r ↦ (
      [],
      rw (q, r) refl,
      λ t. (
        λ m. absurd (ground (arith, m)),
        λ m. let (a, b, (k, e)) = m in absurd (ground (arith, r, b, e)),
      ),
    )
    | inr r ↦
        let period = minutes rule.every_minutes in
        let some_period : nat_beq period 0 ≡ false = ground (arith, h) in
        let (ascends, exact) =
          interval_moments_exact rule.anchor_at period after until (omega (arith, h)) in
        (
          map (due_reminder rule.reminder_id (interval rule))
              (interval_moments rule.anchor_at period after until),
          rw (q, r, some_period) refl,
          λ t.
              rw
                (any-due_reminder rule.reminder_id (interval rule) t
                  (interval_moments rule.anchor_at period after until))
                (exact t),
        )
  ]
]

abbrev pub interval_schedule :
    (rule : IntervalRule) → 1 ≤ rule.every_minutes → Schedule (interval rule)
interval_schedule rule h = record {
  occurs = IsTick rule.anchor_at (minutes rule.every_minutes);
  finds = (λ after until. interval_finds rule after until h);
}

pub weekly_finds :
    (rule : WeeklyRule) (after until : Time)
    → IsRegular rule
    → (due : List DueReminder) × (due_between (weekly rule) after until ≡ ok due)
      × ((t : Time)
          → (any (is_at rule.reminder_id t) due ≡ true) ↔ (after < t) × (t ≤ until) × IsSlot rule t)
unfolding due_between weekly_due
weekly_finds rule after until h = elim (Bool-cases (leb until after)) [
  | inl q ↦ (
    [],
    rw q refl,
    λ t. (
      λ m. absurd (ground (arith, m)),
      λ m. let (a, b, s) = m in absurd (ground (arith, q, a, b)),
    ),
  )
  | inr q ↦
      let zone = rule.timezone in
      let moments =
        moments_of_days rule after until
          (suc (zone.local_time until / day) - zone.local_time after / day)
          (zone.local_time after / day) in
      (
        map (due_reminder rule.reminder_id (weekly rule)) moments,
        rw q refl,
        λ t.
            rw (any-due_reminder rule.reminder_id (weekly rule) t moments)
              (weekly_exact rule after until h t),
      )
]

abbrev pub weekly_schedule : (rule : WeeklyRule) → IsRegular rule → Schedule (weekly rule)
weekly_schedule rule h = record {
  occurs = IsSlot rule;
  finds = (λ after until. weekly_finds rule after until h);
}

-- The rules, each with its schedule.
abbrev pub Schedules : List ReminderRule → Type 1
Schedules rules = All Schedule rules

pub all_due-cons :
    (rule : ReminderRule) (rules : List ReminderRule) (after until : Time)
    (first rest : List DueReminder)
    → due_between rule after until ≡ ok first
    → all_due rules after until ≡ ok rest
    → all_due (rule ∷ rules) after until ≡ ok (first ++ rest)
unfolding all_due
all_due-cons rule rules after until first rest e e' = ground (arith, e, e')

-- What occurs after s and not after l is among the reminders.
abbrev pub Reaches :
    Time → Time → List DueReminder → (rules : List ReminderRule) → Schedules rules → Type 0
Reaches s l notes [] h = Unit {0}
Reaches s l notes (rule ∷ rules) h =
    ((t : Time) → s < t → t ≤ l → h.0.occurs t → any (is_at (rule_id rule) t) notes ≡ true)
    × Reaches s l notes rules h.1

abbrev pub Includes : List DueReminder → List DueReminder → Type 0
Includes xs ys = (id : String) (t : Time) → any (is_at id t) xs ≡ true → any (is_at id t) ys ≡ true

pub Reaches-Includes :
    (s l : Time) (xs ys : List DueReminder) (rules : List ReminderRule) (h : Schedules rules)
    → Includes xs ys
    → Reaches s l xs rules h
    → Reaches s l ys rules h
Reaches-Includes s l xs ys [] h f r = tt
Reaches-Includes s l xs ys (rule ∷ rules) h f r =
    (λ t a b o. f (rule_id rule) t (r.0 t a b o), Reaches-Includes s l xs ys rules h.1 f r.1)

pub Reaches-join :
    (s l n : Time) (xs : List DueReminder) (rules : List ReminderRule) (h : Schedules rules)
    → Reaches s l xs rules h
    → Reaches l n xs rules h
    → Reaches s n xs rules h
Reaches-join s l n xs [] h r q = tt
Reaches-join s l n xs (rule ∷ rules) h r q = (
  λ t a b o. elim (Bool-cases (leb t l)) [
    | inl e ↦ r.0 t a (ground (arith, e)) o
    | inr e ↦ q.0 t (ground (arith, e)) b o
  ],
  Reaches-join s l n xs rules h.1 r.1 q.1,
)

pub Includes-left : (xs ys : List DueReminder) → Includes xs (xs ++ ys)
Includes-left xs ys id t h = ground (arith, any-append (is_at id t) xs ys, h)

pub Includes-right : (xs ys : List DueReminder) → Includes ys (xs ++ ys)
Includes-right xs ys id t h = rw (any-append (is_at id t) xs ys) (ground (arith, h))

-- The search of all rules returns, and finds what occurs.
pub all_due-Reaches :
    (rules : List ReminderRule) (after until : Time) (h : Schedules rules)
    → (due : List DueReminder) × (all_due rules after until ≡ ok due)
      × Reaches after until due rules h
unfolding all_due
all_due-Reaches [] after until h = ([], refl, tt)
all_due-Reaches (rule ∷ rules) after until h =
    let (first, e, x) = h.0.finds after until in
    let (rest, e', r) = all_due-Reaches rules after until h.1 in
    (
      first ++ rest,
      all_due-cons rule rules after until first rest e e',
      (
        λ t a b o. Includes-left first rest (rule_id rule) t ((x t).1 (a, b, o)),
        Reaches-Includes after until rest (first ++ rest) rules h.1 (Includes-right first rest) r,
      ),
    )
