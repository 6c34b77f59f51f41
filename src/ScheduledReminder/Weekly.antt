-- ===== src/ScheduledReminder/Weekly.antt =====
-- The days and times of `_weekly_due`: what the three loops find.
use hermes_event_server.Base.{
  ℕ, zero, suc, ◌+◌, ◌-◌, ◌*◌, ◌/◌, ◌%◌, ◌≤◌, ◌<◌, ◌≡◌, refl, sym, ap, subst, ◌∙◌, ◌↔◌, ◌⊎◌, inl,
  inr, true, ◌&&◌, ◌||◌, List, [], ◌∷◌, ◌++◌, arith, ltb, leb, nat_beq, Bool-cases,
}
use hermes_event_server.Base.Equality.{contains, string_eq, nat_eq, pair_eq}
use hermes_event_server.Models.{Time}
use hermes_event_server.ScheduledReminder.{Zone, WeeklyRule}
use hermes_event_server.ScheduledReminder.Scheduling.{
  day, occurrence, valid_local_occurrences, within, times_of_day, moments_of_day, moments_of_days,
}

contains-append : (xs ys : List ℕ) (t : ℕ) → contains (xs ++ ys) t ≡ contains xs t || contains ys t
contains-append [] ys t = refl
contains-append (x ∷ xs) ys t = ground (arith, contains-append xs ys t)

contains-within :
    (after until t : Time) (ts : List Time)
    → contains (within after until ts) t ≡ contains ts t && (ltb after t && leb t until)
contains-within after until t [] = refl
contains-within after until t (x ∷ xs) = ground (arith, contains-within after until t xs)

-- The moment is the wall time in one of its folds.
abbrev pub IsMoment : Zone → Time → Time → Type 0
IsMoment zone naive t =
    (zone.local_time t ≡ naive) × ((zone.utc_time naive 0 ≡ t) ⊎ (zone.utc_time naive 1 ≡ t))

first_sound :
    (zone : Zone) (naive t : Time) (fold : ℕ) (others : List Time)
    → contains (occurrence zone naive fold others) t ≡ true
    → (zone.local_time (zone.utc_time naive fold) ≡ naive) × (zone.utc_time naive fold ≡ t)
first_sound zone naive t fold others h = ground (arith, h)

occurrence_complete :
    (zone : Zone) (naive : Time) (fold : ℕ) (others : List Time)
    → zone.local_time (zone.utc_time naive fold) ≡ naive
    → (contains others (zone.utc_time naive fold) ≡ true)
      ⊎ (contains (occurrence zone naive fold others) (zone.utc_time naive fold) ≡ true)
occurrence_complete zone naive fold others h = ground (arith, h)

occurrences_sound :
    (zone : Zone) (naive t : Time)
    → contains (valid_local_occurrences naive zone) t ≡ true
    → IsMoment zone naive t
unfolding valid_local_occurrences
occurrences_sound zone naive t h =
    let first = occurrence zone naive 0 [] in
    let h' = rw (contains-append first (occurrence zone naive 1 first) t) at h in
    elim (Bool-cases (contains first t)) [
      | inl q ↦
          let (a, b) = first_sound zone naive t 0 [] q in (ap zone.local_time (sym b) ∙ a, inl b)
      | inr q ↦
          let (a, b) = first_sound zone naive t 1 first (rw q at h') in
          (ap zone.local_time (sym b) ∙ a, inr b)
    ]

occurrences_complete :
    (zone : Zone) (naive t : Time)
    → IsMoment zone naive t
    → contains (valid_local_occurrences naive zone) t ≡ true
unfolding valid_local_occurrences
occurrences_complete zone naive t (l, inl e) =
    let first = occurrence zone naive 0 [] in
    let c = zone.utc_time naive 0 in
    subst (λ u. contains (first ++ occurrence zone naive 1 first) u ≡ true) e
      (rw (contains-append first (occurrence zone naive 1 first) c)
        (ground (arith, occurrence_complete zone naive 0 [] (ap zone.local_time e ∙ l))))
occurrences_complete zone naive t (l, inr e) =
    let first = occurrence zone naive 0 [] in
    let c = zone.utc_time naive 1 in
    subst (λ u. contains (first ++ occurrence zone naive 1 first) u ≡ true) e
      (rw (contains-append first (occurrence zone naive 1 first) c)
        (elim (occurrence_complete zone naive 1 first (ap zone.local_time e ∙ l)) [
          | inl q ↦ rw q refl
          | inr q ↦ ground (arith, q)
        ]))

-- The moment falls on one of the rule's weekdays, at one of its times, in either fold.
abbrev pub IsSlot : WeeklyRule → Time → Type 0
IsSlot rule t =
    (d : ℕ) × (u : Time) × (contains rule.weekdays (d % 7) ≡ true)
    × (contains rule.times u ≡ true)
    × IsMoment rule.timezone (d * day + u) t

-- The dates of the zone never go back, and the rule's times of day lie within a day.
abbrev pub IsRegular : WeeklyRule → Type 0
IsRegular rule =
    ((t u : Time) → t ≤ u → rule.timezone.local_time t / day ≤ rule.timezone.local_time u / day)
    × ((u : Time) → contains rule.times u ≡ true → u < day)

module _ (rule : WeeklyRule) (after until : Time) where
  abbrev Between : Time → Type 0
  Between t = (after < t) × (t ≤ until)

  times_sound :
      (date t : Time) (times : List Time)
      → contains (times_of_day rule after until date times) t ≡ true
      → (u : Time) × (contains times u ≡ true)
        × IsMoment rule.timezone (date * day + u) t
        × Between t
  unfolding times_of_day
  times_sound date t [] h = absurd (ground (arith, h))
  times_sound date t (u ∷ us) h =
      let found = within after until (valid_local_occurrences (date * day + u) rule.timezone) in
      let h' = rw (contains-append found (times_of_day rule after until date us) t) at h in
      elim (Bool-cases (contains found t)) [
        | inl q ↦
            let q' =
              rw
                (contains-within after until t
                  (valid_local_occurrences (date * day + u) rule.timezone))
                at q in
            (
              u,
              ground arith,
              occurrences_sound rule.timezone (date * day + u) t (ground (arith, q')),
              ground (arith, q'),
            )
        | inr q ↦
            let (v, m, r, b) = times_sound date t us (rw q at h') in (v, ground (arith, m), r, b)
      ]

  times_complete :
      (date t u : Time) (times : List Time)
      → contains times u ≡ true
      → IsMoment rule.timezone (date * day + u) t
      → Between t
      → contains (times_of_day rule after until date times) t ≡ true
  unfolding times_of_day
  times_complete date t u [] m r b = absurd (ground (arith, m))
  times_complete date t u (v ∷ vs) m r b =
      let found = within after until (valid_local_occurrences (date * day + v) rule.timezone) in
      rw (contains-append found (times_of_day rule after until date vs) t)
        (elim (Bool-cases (nat_beq v u)) [
          | inl q ↦
              let same : u ≡ v = ground (arith, q) in
              let r' : IsMoment rule.timezone (date * day + v) t =
                subst (λ w. IsMoment rule.timezone (date * day + w) t) same r in
              rw
                (
                  contains-within after until t
                      (valid_local_occurrences (date * day + v) rule.timezone),
                  occurrences_complete rule.timezone (date * day + v) t r',
                )
                (ground (arith, b))
          | inr q ↦
              let m' : contains vs u ≡ true = ground (arith, m, q) in
              ground (arith, times_complete date t u vs m' r b)
        ])

  -- The moments of one day.
  abbrev OnDay : ℕ → Time → Type 0
  OnDay date t =
      (contains rule.weekdays (date % 7) ≡ true)
      × ((u : Time) × (contains rule.times u ≡ true)
          × IsMoment rule.timezone (date * day + u) t
          × Between t)

  day_sound :
      (date : ℕ) (t : Time)
      → contains (moments_of_day rule after until date) t ≡ true
      → OnDay date t
  day_sound date t h = elim (Bool-cases (contains rule.weekdays (date % 7))) [
    | inl q ↦ (q, times_sound date t rule.times (rw (moments_of_day, q) at h))
    | inr q ↦ absurd (ground (arith, rw (moments_of_day, q) at h))
  ]

  day_complete :
      (date : ℕ) (t : Time)
      → OnDay date t
      → contains (moments_of_day rule after until date) t ≡ true
  day_complete date t (q, (u, m, r, b)) =
      rw (moments_of_day, q) (times_complete date t u rule.times m r b)

  days_sound :
      (left date : ℕ) (t : Time)
      → contains (moments_of_days rule after until left date) t ≡ true
      → (d : ℕ) × OnDay d t
  unfolding moments_of_days
  days_sound zero date t h = absurd (ground (arith, h))
  days_sound (suc left) date t h =
      let today = moments_of_day rule after until date in
      let h' =
        rw (contains-append today (moments_of_days rule after until left (suc date)) t) at h in
      elim (Bool-cases (contains today t)) [
        | inl q ↦ (date, day_sound date t q)
        | inr q ↦ days_sound left (suc date) t (rw q at h')
      ]

  days_complete :
      (left date d : ℕ) (t : Time)
      → date ≤ d
      → d < date + left
      → OnDay d t
      → contains (moments_of_days rule after until left date) t ≡ true
  unfolding moments_of_days
  days_complete zero date d t l m h = absurd (omega arith)
  days_complete (suc left) date d t l m h =
      let today = moments_of_day rule after until date in
      rw (contains-append today (moments_of_days rule after until left (suc date)) t)
        (elim (Bool-cases (nat_beq date d)) [
          | inl q ↦
              let same : d ≡ date = ground (arith, q) in
              rw (day_complete date t (subst (λ e. OnDay e t) same h)) refl
          | inr q ↦
              let later : contains (moments_of_days rule after until left (suc date)) t ≡ true =
                days_complete left (suc date) d t (ground (arith, q, l)) (omega (arith, m)) h in
              ground (arith, later)
        ])

  -- For a rule whose times of day lie within a day, in a zone whose dates never go back, the three
  -- loops find exactly the moments after `after` and not after `until` that fall on one of the rule's
  -- weekdays at one of its times: both of them where the clock shows that time twice, none where it
  -- skips it.
  pub weekly_exact :
      IsRegular rule
      → (t : Time)
      → (contains
            (moments_of_days rule after until
              (suc (rule.timezone.local_time until / day) - rule.timezone.local_time after / day)
              (rule.timezone.local_time after / day))
            t
          ≡ true)
        ↔ (after < t) × (t ≤ until) × IsSlot rule t
  weekly_exact (advance, small) t = (
    λ h.
        let (d, (w, (u, m, r, (a, b)))) =
          days_sound
            (suc (rule.timezone.local_time until / day) - rule.timezone.local_time after / day)
            (rule.timezone.local_time after / day) t h in
        (a, b, (d, u, w, m, r)),
    λ h.
        let (a, b, (d, u, w, m, (l, f))) = h in
        let s = small u m in
        let x = advance after t (omega (arith, a)) in
        let y = advance t until b in
        let date : rule.timezone.local_time t / day ≡ d = rw l (omega (arith, s)) in
        days_complete _ (rule.timezone.local_time after / day) d t (omega (arith, x, date))
          (omega (arith, x, y, date)) (w, (u, m, (l, f), (a, b))),
  )
