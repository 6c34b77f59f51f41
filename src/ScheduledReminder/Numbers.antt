-- ===== src/ScheduledReminder/Numbers.antt =====
-- The numbers of a configuration: sorted sets, and integers in a range.
use hermes_event_server.Base.{
  ℕ, ◌%◌, ◌≤◌, ◌<◌, String, ◌≡◌, ◌≢◌, inl, inr, false, not, Option, none, some, List, [], ◌∷◌,
  arith, All, ltb, nat_beq, if◌then◌else◌, Bool-cases, any,
}
use hermes_event_server.Base.Equality.{string_eq, nat_eq, pair_eq}
use hermes_event_server.Base.Action.{Result, ok, err, configuration_error}
use hermes_event_server.Json.{Json}
use hermes_event_server.Models.{Time}
use hermes_event_server.Base.Int.{ℤ, pos, negsuc}
use hermes_event_server.ScheduledReminder.{ReminderRule, weekly, interval}
use hermes_event_server.ScheduledReminder.Config.{
  insert_once, sorted_set, in_range, bounded_int, positive_int, integer, weekday_numbers,
}
use hermes_event_server.ScheduledReminder.Interval.{Ascends}

-- Ascending, and with an item.
abbrev pub IsSortedSet : List ℕ → Type 0
IsSortedSet xs = (xs ≢ []) × Ascends xs

-- What the schedules rely on.
abbrev pub IsValidRule : ReminderRule → Type 0
IsValidRule (weekly rule) =
    IsSortedSet rule.weekdays
    × All (λ n. n < 7) rule.weekdays
    × IsSortedSet rule.times
    × All (λ t. t % 60_000_000 ≡ 0) rule.times
IsValidRule (interval rule) = (1 ≤ rule.every_minutes) × (rule.every_minutes ≤ 10080)

pub insert_once-above :
    (a x : ℕ) (ys : List ℕ) → a < x → All (λ y. a < y) ys → All (λ y. a < y) (insert_once x ys)
insert_once-above a x [] h l = (h, tt)
insert_once-above a x (y ∷ ys) h l = ground (arith, h, l, insert_once-above a x ys h l.1)

pub All-below : (a b : ℕ) (ts : List ℕ) → a < b → All (λ t. b < t) ts → All (λ t. a < t) ts
All-below a b [] l h = tt
All-below a b (t ∷ ts) l h = (omega (arith, h.0), All-below a b ts l h.1)

pub insert_once-Ascends : (x : ℕ) (ys : List ℕ) → Ascends ys → Ascends (insert_once x ys)
insert_once-Ascends x [] h = (tt, tt)
insert_once-Ascends x (y ∷ ys) h = elim (Bool-cases (ltb x y)) [
  | inl q ↦ rw q ((ground (arith, q), All-below x y ys (ground (arith, q)) h.0), h)
  | inr q ↦ elim (Bool-cases (nat_beq x y)) [
    | inl r ↦ rw (q, r) h
    | inr r ↦
        rw (q, r)
          (insert_once-above y x ys (ground (arith, q, r)) h.0, insert_once-Ascends x ys h.1)
  ]
]

pub All-insert_once :
    (P : ℕ → Type 0) (x : ℕ) (ys : List ℕ) → P x → All P ys → All P (insert_once x ys)
All-insert_once P x [] h l = (h, tt)
All-insert_once P x (y ∷ ys) h l = elim (Bool-cases (ltb x y)) [
  | inl q ↦ rw q (h, l)
  | inr q ↦ elim (Bool-cases (nat_beq x y)) [
    | inl r ↦ rw (q, r) l
    | inr r ↦ rw (q, r) (l.0, All-insert_once P x ys h l.1)
  ]
]

pub insert_once-cons : (x : ℕ) (ys : List ℕ) → insert_once x ys ≢ []
insert_once-cons x [] h = ground (arith, h)
insert_once-cons x (y ∷ ys) h = ground (arith, h)

pub sorted_set-Ascends : (xs : List ℕ) → Ascends (sorted_set xs)
unfolding sorted_set
sorted_set-Ascends [] = tt
sorted_set-Ascends (x ∷ xs) = insert_once-Ascends x (sorted_set xs) (sorted_set-Ascends xs)

pub All-sorted_set : (P : ℕ → Type 0) (xs : List ℕ) → All P xs → All P (sorted_set xs)
unfolding sorted_set
All-sorted_set P [] h = tt
All-sorted_set P (x ∷ xs) h = All-insert_once P x (sorted_set xs) h.0 (All-sorted_set P xs h.1)

pub All-whole :
    (ts : List Time)
    → any (λ t. not (nat_beq (t % 60_000_000) 0)) ts ≡ false
    → All (λ t. t % 60_000_000 ≡ 0) ts
All-whole [] h = tt
All-whole (t ∷ ts) h = ground (arith, h, All-whole ts)

pub in_range_bounds : (lo hi n : ℕ) (z : Option ℤ) → in_range lo hi z ≡ ok n → (lo ≤ n) × (n ≤ hi)
in_range_bounds lo hi n none h = absurd (ground (arith, h))
in_range_bounds lo hi n (some (pos m)) h = ground (arith, h)
in_range_bounds lo hi n (some (negsuc m)) h = absurd (ground (arith, h))

pub bounded_int_bounds :
    (v : Option Json) (d : Option ℕ) (lo hi n : ℕ)
    → ((m : ℕ) → d ≡ some m → (lo ≤ m) × (m ≤ hi))
    → bounded_int v d lo hi ≡ ok n
    → (lo ≤ n) × (n ≤ hi)
bounded_int_bounds none none lo hi n b h = absurd (ground (arith, h))
bounded_int_bounds none (some m) lo hi n b h = ground (arith, h, b m)
bounded_int_bounds (some v) d lo hi n b h = in_range_bounds lo hi n (integer v) h

pub positive_int-pos : (v : Option Json) (n : ℕ) → positive_int v ≡ ok n → 1 ≤ n
positive_int-pos none n h = ground (arith, h)
positive_int-pos (some v) n h = positive_of (integer v) n h
  where
    positive_of :
        (z : Option ℤ) (n : ℕ)
        → elim z as (λ x. Result ℕ) [
          | none ↦ err configuration_error
          | some k ↦ elim k as (λ x. Result ℕ) [
            | pos m ↦ if ltb m 1 then err configuration_error else ok m
            | negsuc m ↦ err configuration_error
          ]
        ]
          ≡ ok n
        → 1 ≤ n
    positive_of none n h = absurd (ground (arith, h))
    positive_of (some (pos m)) n h = ground (arith, h)
    positive_of (some (negsuc m)) n h = absurd (ground (arith, h))

pub weekday_numbers_small : All (λ (e : String × ℕ). e.1 < 7) weekday_numbers
weekday_numbers_small = (
  omega arith,
  (omega arith, (omega arith, (omega arith, (omega arith, (omega arith, (omega arith, tt)))))),
)

pub sorted_set-cons : (x : ℕ) (xs : List ℕ) → sorted_set (x ∷ xs) ≢ []
unfolding sorted_set
sorted_set-cons x xs = insert_once-cons x (sorted_set xs)
