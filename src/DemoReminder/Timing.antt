-- ===== src/DemoReminder/Timing.antt =====
-- What a submission that is accepted asks for.
use hermes_event_server.Base.{
  ℕ, ◌+◌, ◌-◌, ◌*◌, ◌/◌, ◌^◌, ◌≤◌, String, ◌≡◌, refl, ap, subst, ◌≢◌, ◌⊎◌, inl, inr, true, false,
  Option, none, some, arith, ltb, Bool-cases,
}
use hermes_event_server.Base.Equality.{◌==◌, string_eq, nat_eq, pair_eq, string_discrete, distinct}
use hermes_event_server.Base.Action.{Result, ok, err, submission_error}
use hermes_event_server.Json.{Json, null, bool, int, float, str, list, dict}
use hermes_event_server.Base.Int.{pos, negsuc}
use hermes_event_server.Registry.{Datetime, aware, naive}
use hermes_event_server.Models.{Time, seconds}
use hermes_event_server.Base.Text.{text_length}
use hermes_event_server.Base.Fallible.{raise_if, bind-ok, raise_if-ok}
use hermes_event_server.DemoReminder.{bounded, parse_delay}
use hermes_event_server.DemoReminder.Service.{
  PublisherSettings, ReminderRequest, Submission, Formats, default_title, given, is_several,
  aware_time, bounded_text, clean_text, clean_title, clean_dedupe_key, parse_seconds,
  parse_absolute, after_delay, timing, resolve_timing, key_or, submit,
}

module _ (formats : Formats) where
  -- A text that is not empty and not longer than the limit.
  abbrev pub IsText : ℕ → String → Type 0
  IsText limit s = (s ≢ "") × (text_length s ≤ limit)

  -- `delay_seconds` is a number that is not negative, and its whole part counts.
  abbrev pub IsSeconds : Json → ℕ → Type 0
  IsSeconds value n =
      (value ≡ int (pos n)) ⊎ ((m : ℕ) × (k : ℕ) × (value ≡ float (pos m) k) × (n ≡ m / 2 ^ k))

  -- `delay` is a number of minutes, or what `parse_delay` reads in a text or a float.
  abbrev pub IsDelay : PublisherSettings → Json → ℕ → Type 0
  IsDelay settings (int (pos m)) n = n ≡ m * 60
  IsDelay settings (int (negsuc m)) n = true ≡ false
  IsDelay settings value n = parse_delay formats.python value settings.max_delay_seconds ≡ ok n

  -- `at` is a text with a time and its offset.
  abbrev pub IsMoment : Json → Time → Type 0
  IsMoment value t = (s : String) × (value ≡ str s) × (formats.fromisoformat s ≡ some (aware t))

  -- The time and the delay that `delay`, `delay_seconds` and `at` ask for; two of them ask for none.
  abbrev pub IsTimed :
      PublisherSettings → Time → Option Json → Option Json → Option Json → Time × ℕ → Type 0
  IsTimed settings requested_at none none none t =
      (t.1 ≡ settings.default_delay_seconds) × (t.0 ≡ requested_at + seconds t.1)
  IsTimed settings requested_at (some value) none none t =
      IsDelay settings value t.1 × (t.0 ≡ requested_at + seconds t.1)
  IsTimed settings requested_at none (some value) none t =
      IsSeconds value t.1 × (t.0 ≡ requested_at + seconds t.1)
  IsTimed settings requested_at none none (some value) t =
      IsMoment value t.0 × (t.1 ≡ (t.0 - requested_at) / 1_000_000)
  IsTimed settings requested_at _ _ _ t = true ≡ false

  pub record IsReminder (settings : PublisherSettings) (requested_at : Time) (fresh : String)
      (s : Submission) (r : ReminderRequest) : Type 0 where
    pub requested : r.requested_at ≡ requested_at
    pub timed :
        IsTimed settings requested_at s.delay s.delay_seconds s.moment
          (r.notify_at, r.delay_seconds)
    pub near : r.delay_seconds ≤ settings.max_delay_seconds
    pub title : IsText 100 r.title
    pub text : IsText 500 r.text
    pub key : (r.request_id ≡ fresh) ⊎ (formats.is_dedupe_key r.request_id ≡ true)
    pub dedupes : r.dedupe_key ≡ r.request_id

  after_delay_timed :
      (requested_at : Time) (delay : Result ℕ) (t : Time × ℕ)
      → after_delay formats requested_at delay ≡ ok t
      → (delay ≡ ok t.1) × (t.0 ≡ requested_at + seconds t.1)
  after_delay_timed requested_at (ok n) t h =
      let same : (requested_at + seconds n, n) ≡ t = ground (arith, h) in
      subst (λ (u : Time × ℕ). (ok n ≡ ok u.1) × (u.0 ≡ requested_at + seconds u.1)) same
        (refl, refl)
  after_delay_timed requested_at (err e) t h = absurd (ground (arith, h))

  parse_seconds-IsSeconds :
      (value : Json) (n : ℕ) → parse_seconds formats value ≡ ok n → IsSeconds value n
  unfolding parse_seconds
  parse_seconds-IsSeconds (int (pos m)) n h =
      let same : m ≡ n = ground (arith, h) in inl (ap (λ x. int (pos x)) same)
  parse_seconds-IsSeconds (float (pos m) k) n h = inr (m, k, refl, ground (arith, h))
  parse_seconds-IsSeconds _ n h = absurd (ground (arith, h))

  minutes_bounded : (limit m n : ℕ) → bounded limit (ok (m * 60)) ≡ ok n → n ≡ m * 60
  minutes_bounded limit m n h = elim (Bool-cases (ltb limit (m * 60))) [
    | inl q ↦ absurd (ground (arith, rw q at h))
    | inr q ↦ ground (arith, rw q at h)
  ]

  parse_delay-IsDelay :
      (settings : PublisherSettings) (value : Json) (n : ℕ)
      → parse_delay formats.python value settings.max_delay_seconds ≡ ok n
      → IsDelay settings value n
  unfolding parse_delay
  parse_delay-IsDelay settings (int (pos m)) n h = minutes_bounded settings.max_delay_seconds m n h
  parse_delay-IsDelay settings (int (negsuc m)) n h = absurd (ground (arith, h))
  parse_delay-IsDelay settings null n h = h
  parse_delay-IsDelay settings (bool b) n h = h
  parse_delay-IsDelay settings (float m k) n h = h
  parse_delay-IsDelay settings (str s) n h = h
  parse_delay-IsDelay settings (list xs) n h = h
  parse_delay-IsDelay settings (dict fs) n h = h

  aware_time_found :
      (found : Option Datetime) (t : Time) → aware_time found ≡ ok t → found ≡ some (aware t)
  aware_time_found none t h = absurd (ground (arith, h))
  aware_time_found (some naive) t h = absurd (ground (arith, h))
  aware_time_found (some (aware u)) t h =
      let same : u ≡ t = ground (arith, h) in ap (λ x. some (aware x)) same

  parse_absolute-IsMoment :
      (value : Json) (t : Time) → parse_absolute formats value ≡ ok t → IsMoment value t
  unfolding parse_absolute
  parse_absolute-IsMoment (str s) t h = (s, refl, aware_time_found (formats.fromisoformat s) t h)
  parse_absolute-IsMoment _ t h = absurd (ground (arith, h))

  timing-IsTimed :
      (settings : PublisherSettings) (requested_at : Time)
      (delay delay_seconds moment : Option Json) (t : Time × ℕ)
      → is_several delay delay_seconds moment ≡ false
      → timing formats settings requested_at delay delay_seconds moment ≡ ok t
      → IsTimed settings requested_at delay delay_seconds moment t
  timing-IsTimed settings requested_at none none none t q h =
      let (n, e) = after_delay_timed requested_at (ok settings.default_delay_seconds) t h in
      (ground (arith, n), e)
  timing-IsTimed settings requested_at none none (some value) t q h =
      let (u, e, g) = bind-ok (parse_absolute formats value) _ t h in
      let same : (u, (u - requested_at) / 1_000_000) ≡ t = ground (arith, g) in
      subst (IsTimed settings requested_at none none (some value)) same
        (parse_absolute-IsMoment value u e, refl)
  timing-IsTimed settings requested_at none (some value) none t q h =
      let (n, e) = after_delay_timed requested_at (parse_seconds formats value) t h in
      (parse_seconds-IsSeconds value t.1 n, e)
  timing-IsTimed settings requested_at (some value) none none t q h =
      let (n, e) =
        after_delay_timed requested_at (parse_delay formats.python value settings.max_delay_seconds)
          t h in
      (parse_delay-IsDelay settings value t.1 n, e)
  timing-IsTimed settings requested_at none (some v) (some w) t q h = absurd (ground (arith, q))
  timing-IsTimed settings requested_at (some v) none (some w) t q h = absurd (ground (arith, q))
  timing-IsTimed settings requested_at (some v) (some w) none t q h = absurd (ground (arith, q))
  timing-IsTimed settings requested_at (some v) (some w) (some x) t q h = absurd (ground (arith, q))

  bounded_text-IsText :
      (limit : ℕ) (s t : String)
      → (s == "") ≡ false
      → bounded_text formats limit s ≡ ok t
      → IsText limit t
  bounded_text-IsText limit s t q h = elim (Bool-cases (ltb limit (text_length s))) [
    | inl many ↦ absurd (ground (arith, rw (bounded_text, many) at h))
    | inr few ↦
        let same : s ≡ t = ground (arith, rw (bounded_text, few) at h) in
        subst (IsText limit) same (distinct s "" q, ground (arith, few))
  ]

  clean_text-IsText :
      (value : Option Json) (s : String) → clean_text formats value ≡ ok s → IsText 500 s
  unfolding clean_text
  clean_text-IsText (some (str u)) s h = elim (Bool-cases (formats.python.strip u == "")) [
    | inl q ↦ absurd (ground (arith, rw q at h))
    | inr q ↦ bounded_text-IsText 500 (formats.python.strip u) s q (rw q at h)
  ]
  clean_text-IsText _ s h = absurd (ground (arith, h))

  default-IsText : IsText 100 default_title
  unfolding string_discrete
  default-IsText = (distinct default_title "" refl, omega arith)

  clean_title-IsText :
      (value : Option Json) (s : String) → clean_title formats value ≡ ok s → IsText 100 s
  unfolding clean_title
  clean_title-IsText none s h =
      let same : default_title ≡ s = ground (arith, h) in subst (IsText 100) same default-IsText
  clean_title-IsText (some (str u)) s h = elim (Bool-cases (formats.python.strip u == "")) [
    | inl q ↦
        let same : default_title ≡ s = ground (arith, rw q at h) in
        subst (IsText 100) same default-IsText
    | inr q ↦ bounded_text-IsText 100 (formats.python.strip u) s q (rw q at h)
  ]
  clean_title-IsText _ s h = absurd (ground (arith, h))

  clean_dedupe_key-match :
      (value : Json) (key : String)
      → clean_dedupe_key formats value ≡ ok key
      → formats.is_dedupe_key key ≡ true
  unfolding clean_dedupe_key
  clean_dedupe_key-match (str u) key h = elim (Bool-cases (formats.is_dedupe_key u)) [
    | inl q ↦
        let same : u ≡ key = ground (arith, rw q at h) in
        subst (λ k. formats.is_dedupe_key k ≡ true) same q
    | inr q ↦ absurd (ground (arith, rw q at h))
  ]
  clean_dedupe_key-match _ key h = absurd (ground (arith, h))

  key_or_match :
      (fresh : String) (value : Option Json) (key : String)
      → key_or formats fresh value ≡ ok key
      → (key ≡ fresh) ⊎ (formats.is_dedupe_key key ≡ true)
  key_or_match fresh none key h = inl (ground (arith, h))
  key_or_match fresh (some v) key h = inr (clean_dedupe_key-match v key h)

  -- A submission that is accepted gives at most one of `delay`, `delay_seconds` and `at`. With `at`,
  -- a text with an offset, the reminder is due at that moment, and its delay is the number of whole
  -- seconds until then, 0 if it has passed. Otherwise it is due its delay after the request: the
  -- whole part of `delay_seconds`, a number that is not negative; sixty seconds for each minute of an
  -- integer `delay`, or what `parse_delay` reads in another one; and with none of the three the
  -- configured default. The delay is not above the configured maximum; title and text are not empty
  -- and have at most 100 and 500 characters; and one key, the fresh one or one that matches the
  -- pattern, is both its identifier and its deduplication key.
  pub submit-IsReminder :
      (settings : PublisherSettings) (requested_at : Time) (fresh : String) (s : Submission)
      (r : ReminderRequest)
      → submit formats settings requested_at fresh s ≡ ok r
      → IsReminder settings requested_at fresh s r
  unfolding submit resolve_timing
  submit-IsReminder settings requested_at fresh s r h =
      let (t, e₁, h₁) =
        bind-ok (resolve_timing formats settings requested_at s.delay s.delay_seconds s.moment) _ r
          h in
      let (key, e₂, h₂) = bind-ok (key_or formats fresh (given s.dedupe_key)) _ r h₁ in
      let (title, e₃, h₃) = bind-ok (clean_title formats s.title) _ r h₂ in
      let (text, e₄, h₄) = bind-ok (clean_text formats s.text) _ r h₃ in
      let (u, f₁, g₁) =
        bind-ok (raise_if (is_several s.delay s.delay_seconds s.moment) submission_error) _ t e₁ in
      let (t', f₂, g₂) =
        bind-ok (timing formats settings requested_at s.delay s.delay_seconds s.moment) _ t g₁ in
      let (w, f₃, g₃) =
        bind-ok (raise_if (ltb settings.max_delay_seconds t'.1) submission_error) _ t g₂ in
      let same_time : t' ≡ t = ground (arith, g₃) in
      let made : ReminderRequest = record {
        request_id = key;
        dedupe_key = key;
        title = title;
        text = text;
        delay_seconds = t.1;
        requested_at = requested_at;
        notify_at = t.0;
      } in
      let same : made ≡ r = ground (arith, h₄) in
      let within_limit : ltb settings.max_delay_seconds t'.1 ≡ false =
        raise_if-ok (ltb settings.max_delay_seconds t'.1) submission_error w f₃ in
      let shown : IsReminder settings requested_at fresh s made = record {
        requested = refl;
        timed = subst (IsTimed settings requested_at s.delay s.delay_seconds s.moment) same_time (
            timing-IsTimed settings requested_at s.delay s.delay_seconds s.moment t'
              (raise_if-ok (is_several s.delay s.delay_seconds s.moment) submission_error u f₁) f₂);
        near =
            subst (λ (x : Time × ℕ). x.1 ≤ settings.max_delay_seconds) same_time
              (ground (arith, within_limit));
        title = clean_title-IsText s.title title e₃;
        text = clean_text-IsText s.text text e₄;
        key = key_or_match fresh (given s.dedupe_key) key e₂;
        dedupes = refl;
      } in
      subst (IsReminder settings requested_at fresh s) same shown
