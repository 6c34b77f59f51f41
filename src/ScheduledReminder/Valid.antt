-- ===== src/ScheduledReminder/Valid.antt =====
-- What load_config guarantees of a configuration that it accepts.
use hermes_event_server.Base.{
  ℕ, ◌%◌, ◌≤◌, ◌<◌, String, ◌≡◌, subst, ◌≢◌, inl, inr, true, false, not, Option, none, some, List,
  [], ◌∷◌, map, arith, All, nat_beq, Bool-cases, Option-cases, any,
}
use hermes_event_server.Base.Equality.{◌==◌, string_eq, nat_eq, pair_eq}
use hermes_event_server.Base.Table.{get, All-get}
use hermes_event_server.Base.Action.{Result, ok, configuration_error}
use hermes_event_server.Json.{
  Json, Items, Fields, null, bool, int, float, str, list, dict, nil, cons, get_field,
}
use hermes_event_server.Models.{Time}
use hermes_event_server.Base.Fallible.{raise_if, or_raise, bind-ok, raise_if-ok, ◌>>=◌}
use hermes_event_server.ScheduledReminder.{
  Zone, ReminderRule, weekly, interval, rule_id, ReminderConfig,
}
use hermes_event_server.ScheduledReminder.Config.{
  Formats, sorted_set, bounded_int, positive_int, required_string, valid_event_key, weekday_item,
  time_item, parse_items, parse_list, parse_weekdays, parse_times, aware_datetime, is_reminder_id,
  parse_weekly, parse_interval, parse_kind, parse_fields, parse_rule, parse_rules, rule_items,
  repeats, load_fields, load_config, weekday_numbers, weekday_key,
}
use hermes_event_server.ScheduledReminder.Numbers.{
  IsSortedSet, IsValidRule, sorted_set-Ascends, All-sorted_set, All-whole, bounded_int_bounds,
  positive_int-pos, weekday_numbers_small, sorted_set-cons,
}

module _ (formats : Formats) where
  weekday-below : (v : Json) (n : ℕ) → weekday_item formats v ≡ ok n → n < 7
  weekday-below (str s) n h =
      elim (Option-cases (get weekday_key (formats.lower s) weekday_numbers)) [
        | inl q ↦ absurd (ground (arith, rw (weekday_item, q) at h))
        | inr (e, q) ↦
            let small : e.1 < 7 =
              All-get weekday_key (λ e. e.1 < 7) (formats.lower s) e weekday_numbers
                weekday_numbers_small q in
            ground (arith, rw (weekday_item, q) at h, small)
      ]
  weekday-below null n h = absurd (ground (arith, h))
  weekday-below (bool b) n h = absurd (ground (arith, h))
  weekday-below (int m) n h = absurd (ground (arith, h))
  weekday-below (float m k) n h = absurd (ground (arith, h))
  weekday-below (list vs) n h = absurd (ground (arith, h))
  weekday-below (dict fs) n h = absurd (ground (arith, h))

  parse_items-cons :
      (parse : Json → Result ℕ) (v : Json) (vs : Items) (ns : List ℕ)
      → parse_items formats parse (cons v vs) ≡ ok ns
      → (n : ℕ) × (rest : List ℕ) × (parse v ≡ ok n)
        × (parse_items formats parse vs ≡ ok rest)
        × (ns ≡ n ∷ rest)
  unfolding parse_items
  parse_items-cons parse v vs ns h =
      let (n, e, q) =
        bind-ok (parse v) (λ n. parse_items formats parse vs >>= λ ns. ok (n ∷ ns)) ns h in
      let (rest, e', q') = bind-ok (parse_items formats parse vs) (λ ns. ok (n ∷ ns)) ns q in
      (n, rest, e, e', ground (arith, q'))

  All-parse_items :
      (P : ℕ → Type 0) (parse : Json → Result ℕ)
      → ((v : Json) (n : ℕ) → parse v ≡ ok n → P n)
      → (vs : Items) (ns : List ℕ) → parse_items formats parse vs ≡ ok ns
      → All P ns
  unfolding parse_items
  All-parse_items P parse f nil ns h = let e : [] ≡ ns = ground (arith, h) in subst (All P) e tt
  All-parse_items P parse f (cons v vs) ns h =
      let (n, rest, e, e', q) = parse_items-cons parse v vs ns h in
      rw q (f v n e, All-parse_items P parse f vs rest e')

  -- The items of a list that is accepted: there is one, and each has been parsed.
  parse_list_parsed :
      (P : ℕ → Type 0) (parse : Json → Result ℕ)
      → ((v : Json) (n : ℕ) → parse v ≡ ok n → P n)
      → (value : Option Json) (ns : List ℕ) → parse_list formats parse value ≡ ok ns
      → (sorted_set ns ≢ []) × All P ns
  parse_list_parsed P parse f (some (list (cons v vs))) ns h =
      let (n, rest, e, e', q) = parse_items-cons parse v vs ns h in
      (rw q (sorted_set-cons n rest), All-parse_items P parse f (cons v vs) ns h)
  parse_list_parsed P parse f _ ns h = absurd (ground (arith, h))

  parse_weekdays_valid :
      (value : Option Json) (ns : List ℕ)
      → parse_weekdays formats value ≡ ok ns
      → IsSortedSet ns × All (λ n. n < 7) ns
  unfolding parse_weekdays
  parse_weekdays_valid value ns h =
      let (xs, e, q) =
        bind-ok (parse_list formats (weekday_item formats) value) (λ xs. ok (sorted_set xs)) ns h in
      let (some_item, small) =
        parse_list_parsed (λ n. n < 7) (weekday_item formats) weekday-below value xs e in
      let same : sorted_set xs ≡ ns = ground (arith, q) in
      subst (λ ys. IsSortedSet ys × All (λ n. n < 7) ys) same
        ((some_item, sorted_set-Ascends xs), All-sorted_set (λ n. n < 7) xs small)

  parse_times_valid :
      (value : Option Json) (ts : List Time)
      → parse_times formats value ≡ ok ts
      → IsSortedSet ts × All (λ t. t % 60_000_000 ≡ 0) ts
  unfolding parse_times
  parse_times_valid value ts h =
      let (xs, e, q) =
        bind-ok (parse_list formats (time_item formats) value)
          (λ parsed.
            raise_if (any (λ t. not (nat_beq (t % 60_000_000) 0)) parsed) configuration_error
            >>= λ u. ok (sorted_set parsed))
          ts h in
      let (u, e', q') =
        bind-ok (raise_if (any (λ t. not (nat_beq (t % 60_000_000) 0)) xs) configuration_error)
          (λ u. ok (sorted_set xs)) ts q in
      let (some_item, all) =
        parse_list_parsed (λ n. Unit {0}) (time_item formats) (λ v n p. tt) value xs e in
      let whole = All-whole xs (raise_if-ok _ configuration_error u e') in
      let same : sorted_set xs ≡ ts = ground (arith, q') in
      subst (λ ys. IsSortedSet ys × All (λ t. t % 60_000_000 ≡ 0) ys) same
        ((some_item, sorted_set-Ascends xs), All-sorted_set (λ t. t % 60_000_000 ≡ 0) xs whole)

  parse_weekly-IsValidRule :
      (payload : Fields) (id title text : String) (zone : Zone) (rule : ReminderRule)
      → parse_weekly formats payload id title text zone ≡ ok rule
      → IsValidRule rule
  unfolding parse_weekly
  parse_weekly-IsValidRule payload id title text zone rule h =
      let made : List ℕ → List Time → ReminderRule = λ days times. weekly (record {
        reminder_id = id;
        title = title;
        text = text;
        timezone = zone;
        weekdays = days;
        times = times;
      }) in
      let (days, e, q) =
        bind-ok (parse_weekdays formats (get_field "weekdays" payload))
          (λ days.
            parse_times formats (get_field "times" payload) >>= λ times. ok (made days times))
          rule h in
      let (times, e', q') =
        bind-ok (parse_times formats (get_field "times" payload)) (λ times. ok (made days times))
          rule q in
      let (a, b) = parse_weekdays_valid (get_field "weekdays" payload) days e in
      let (c, d) = parse_times_valid (get_field "times" payload) times e' in
      let same : made days times ≡ rule = ground (arith, q') in subst IsValidRule same (a, b, c, d)

  parse_interval-IsValidRule :
      (payload : Fields) (id title text : String) (zone : Zone) (rule : ReminderRule)
      → parse_interval formats payload id title text zone ≡ ok rule
      → IsValidRule rule
  unfolding parse_interval
  parse_interval-IsValidRule payload id title text zone rule h =
      let made : Time → ℕ → ReminderRule = λ anchor_at every. interval (record {
        reminder_id = id;
        title = title;
        text = text;
        timezone = zone;
        anchor_at = anchor_at;
        every_minutes = every;
      }) in
      let every = bounded_int (get_field "every_minutes" payload) none 1 10080 in
      let (anchor, e, q) =
        bind-ok (required_string payload "anchor_at" 128)
          (λ anchor. aware_datetime formats anchor >>= λ t. every >>= λ n. ok (made t n)) rule h in
      let (t, e', q') =
        bind-ok (aware_datetime formats anchor) (λ t. every >>= λ n. ok (made t n)) rule q in
      let (n, e'', q'') = bind-ok every (λ n. ok (made t n)) rule q' in
      let same : made t n ≡ rule = ground (arith, q'') in
      subst IsValidRule same (
        bounded_int_bounds (get_field "every_minutes" payload) none 1 10080 n
          (λ m p. absurd (ground (arith, p))) e'')

  parse_kind-IsValidRule :
      (payload : Fields) (id title text : String) (zone : Zone) (kind : String)
      (rule : ReminderRule)
      → parse_kind formats payload id title text zone kind ≡ ok rule
      → IsValidRule rule
  parse_kind-IsValidRule payload id title text zone kind rule h =
      elim (Bool-cases (kind == "weekly")) [
        | inl q ↦ parse_weekly-IsValidRule payload id title text zone rule (rw q at h)
        | inr q ↦ elim (Bool-cases (kind == "interval")) [
          | inl r ↦ parse_interval-IsValidRule payload id title text zone rule (rw (q, r) at h)
          | inr r ↦ absurd (ground (arith, rw (q, r) at h))
        ]
      ]

  parse_fields-IsValidRule :
      (payload : Fields) (rule : ReminderRule)
      → parse_fields formats payload ≡ ok rule
      → IsValidRule rule
  unfolding parse_fields
  parse_fields-IsValidRule payload rule h =
      let (id, e₁, h₁) = bind-ok (required_string payload "id" 128) _ rule h in
      let (u, e₂, h₂) =
        bind-ok (raise_if (not (is_reminder_id formats id)) configuration_error) _ rule h₁ in
      let (title, e₃, h₃) = bind-ok (required_string payload "title" 200) _ rule h₂ in
      let (text, e₄, h₄) = bind-ok (required_string payload "text" 4000) _ rule h₃ in
      let (zone_name, e₅, h₅) = bind-ok (required_string payload "timezone" 128) _ rule h₄ in
      let (zone, e₆, h₆) =
        bind-ok (or_raise (formats.zone_info zone_name) configuration_error) _ rule h₅ in
      let (kind, e₇, h₇) = bind-ok (required_string payload "kind" 128) _ rule h₆ in
      parse_kind-IsValidRule payload id title text zone kind rule h₇

  parse_rule-IsValidRule :
      (v : Json) (rule : ReminderRule) → parse_rule formats v ≡ ok rule → IsValidRule rule
  parse_rule-IsValidRule (dict payload) rule h = parse_fields-IsValidRule payload rule h
  parse_rule-IsValidRule _ rule h = absurd (ground (arith, h))

  All-parse_rules :
      (vs : Items) (rules : List ReminderRule)
      → parse_rules formats vs ≡ ok rules
      → All IsValidRule rules
  unfolding parse_rules
  All-parse_rules nil rules h =
      let e : [] ≡ rules = ground (arith, h) in subst (All IsValidRule) e tt
  All-parse_rules (cons v vs) rules h =
      let (rule, e, q) = bind-ok (parse_rule formats v) _ rules h in
      let (rest, e', q') = bind-ok (parse_rules formats vs) _ rules q in
      let same : rule ∷ rest ≡ rules = ground (arith, q') in
      subst (All IsValidRule) same (parse_rule-IsValidRule v rule e, All-parse_rules vs rest e')

  -- A configuration that the schedules and the publisher can rely on.
  pub record IsValid (config : ReminderConfig) : Type 0 where
    pub key : valid_event_key formats config.event_key ≡ true
    pub version : 1 ≤ config.schema_version
    pub limit : (1 ≤ config.max_due_per_tick) × (config.max_due_per_tick ≤ 1000)
    pub rules : All IsValidRule config.rules
    pub unique : repeats formats (map rule_id config.rules) ≡ false

  load_fields-IsValid :
      (payload : Fields) (config : ReminderConfig)
      → load_fields formats payload ≡ ok config
      → IsValid config
  unfolding load_fields
  load_fields-IsValid payload config h =
      let (key, e₁, h₁) = bind-ok (required_string payload "event_key" 128) _ config h in
      let (u, e₂, h₂) =
        bind-ok (raise_if (not (valid_event_key formats key)) configuration_error) _ config h₁ in
      let (version, e₃, h₃) =
        bind-ok (positive_int (get_field "schema_version" payload)) _ config h₂ in
      let (due, e₄, h₄) =
        bind-ok (bounded_int (get_field "max_due_per_tick" payload) (some 100) 1 1000) _ config
          h₃ in
      let (items, e₅, h₅) =
        bind-ok (rule_items formats (get_field "reminders" payload)) _ config h₄ in
      let (rules, e₆, h₆) = bind-ok (parse_rules formats items) _ config h₅ in
      let (w, e₇, h₇) =
        bind-ok (raise_if (repeats formats (map rule_id rules)) configuration_error) _ config h₆ in
      let made : ReminderConfig = record {
        event_key = key;
        schema_version = version;
        rules = rules;
        max_due_per_tick = due;
      } in
      let same : made ≡ config = ground (arith, h₇) in
      let valid : IsValid made = record {
        key =
            ground
              (arith, raise_if-ok (not (valid_event_key formats key)) configuration_error u e₂);
        version = positive_int-pos (get_field "schema_version" payload) version e₃;
        limit =
            bounded_int_bounds (get_field "max_due_per_tick" payload) (some 100) 1 1000 due
              (λ m p. ground (arith, p)) e₄;
        rules = All-parse_rules items rules e₆;
        unique = raise_if-ok (repeats formats (map rule_id rules)) configuration_error w e₇;
      } in
      subst IsValid same valid

  -- A configuration that load_config accepts has a valid event key, a positive schema version, a
  -- limit from 1 to 1000 and rules with different ids; an interval is from 1 to 10080 minutes, and a
  -- weekly rule has weekdays below 7 and times in whole minutes, neither list empty, both ascending
  -- and without repetition.
  pub load_config-IsValid :
      (file : Option Json) (config : ReminderConfig)
      → load_config formats file ≡ ok config
      → IsValid config
  unfolding load_config
  load_config-IsValid (some (dict payload)) config h = load_fields-IsValid payload config h
  load_config-IsValid _ config h = absurd (ground (arith, h))
