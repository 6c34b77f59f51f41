-- ===== src/Warframe/Goals.antt =====
-- The ghoul event from the world state to the observation: the loop over the goals, described without it.
use hermes_event_server.Base.{
  ◌≤◌, ◌<◌, String, ◌≡◌, refl, ◌⊎◌, inl, inr, Bool, true, false, ◌&&◌, Option, none, some, List, [],
  ◌∷◌, arith, ltb, leb, Bool-cases, any,
}
use hermes_event_server.Base.Equality.{string_eq, nat_eq, pair_eq, string_discrete}
use hermes_event_server.Base.Table.{get}
use hermes_event_server.Base.Action.{Result, Result-cases, ok}
use hermes_event_server.Json.{Fields, bool, get_field}
use hermes_event_server.Models.{Time, Observation}
use hermes_event_server.Base.Int.{ℤ}
use hermes_event_server.Warframe.{
  Environment, raw_get, parse_time, optional_time, require_str, require_bool, observation,
}
use hermes_event_server.Warframe.WorldState.{
  ghoul_event, first_active, active_goal, inactive, objects, has_tag, ghoul_tag, unfinished,
  observed_time, bson_date,
}
use hermes_event_server.Warframe.GhoulEvent.{normalize}
use hermes_event_server.Registry.{Raw}

abbrev is_within : Time → Result Time → Result Time → Bool
is_within t (ok activation) (ok expiry) = leb activation t && ltb t expiry
is_within t _ _ = false

module _ (int_text : String → Option ℤ) where
  -- The goal is of the ghouls, its two dates can be read and lie around `t`, and it has no success.
  abbrev pub is_running : Time → Fields → Bool
  is_running t goal =
      has_tag ghoul_tag goal
      && (is_within t (bson_date int_text (get_field "Activation" goal))
            (bson_date int_text (get_field "Expiry" goal))
          && unfinished int_text (get_field "Success" goal))

  module _ (env : Environment) where
    -- The observation made of a report.
    abbrev pub Reports : Time → Raw → Bool → Type 0
    Reports t raw running =
        (o : Observation) × (normalize env raw ≡ ok o)
        × (o.observed_at ≡ t)
        × (get_field "active" o.state ≡ some (bool running))
        × (o.effective_at ≤ t)
        × ((o.expires_at ≡ none) ⊎ (x : Time) × (o.expires_at ≡ some x) × (t < x))

    normalize-active :
        (t a x : Time) (goal : Fields)
        → a ≤ t
        → t < x
        → Reports t (active_goal int_text t goal a x) true
    unfolding normalize raw_get get parse_time optional_time require_str require_bool
        string_discrete observation
    normalize-active t a x goal h l = (_, refl, refl, refl, h, inr (x, refl, l))

    normalize-inactive : (t : Time) → Reports t (inactive int_text t) false
    unfolding normalize raw_get get parse_time optional_time require_str require_bool
        string_discrete observation
    normalize-inactive t = (_, refl, refl, refl, omega arith, inl refl)

  abbrev IsActive : Time → Raw → Type 0
  IsActive t raw =
      (goal : Fields) × (a : Time) × (x : Time) × (a ≤ t)
      × (t < x)
      × (raw ≡ active_goal int_text t goal a x)

  abbrev Cases : Time → Raw → Bool → Type 0
  Cases t raw running =
      (running ≡ false) × (raw ≡ inactive int_text t) ⊎ (running ≡ true) × IsActive t raw

  first_active-Cases :
      (t : Time) (goals : List Fields) (raw : Raw)
      → first_active int_text t goals ≡ ok raw
      → Cases t raw (any (is_running t) goals)
  unfolding first_active
  first_active-Cases t [] raw h = inl (refl, ground (arith, h))
  first_active-Cases t (goal ∷ goals) raw h = elim (Bool-cases (has_tag ghoul_tag goal)) [
    | inr q ↦ rw q (first_active-Cases t goals raw (rw q at h))
    | inl q ↦ elim (Result-cases (bson_date int_text (get_field "Activation" goal))) [
      | inr (e, p) ↦ ground (arith, rw (q, p) at h)
      | inl (a, p) ↦ elim (Result-cases (bson_date int_text (get_field "Expiry" goal))) [
        | inr (e, r) ↦ ground (arith, rw (q, p, r) at h)
        | inl (x, r) ↦
            rw (q, p, r) (ground (arith, rw (q, p, r) at h, first_active-Cases t goals raw))
      ]
    ]
  ]

  module _ (env : Environment) where
    Reports-Cases :
        (t : Time) (raw : Raw) (running : Bool) → Cases t raw running → Reports env t raw running
    Reports-Cases t raw running (inl (b, q)) = rw (b, q) (normalize-inactive env t)
    Reports-Cases t raw running (inr (b, (goal, a, x, h, l, q))) =
        rw (b, q) (normalize-active env t a x goal h l)

    -- For a world state that the adapter accepts: the provider accepts the adapter's report, and the
    -- observation is of the world state's time; it says that the event is active exactly when a goal
    -- is running: one with the ghouls' tag whose dates can be read, with the time from the activation
    -- on and before the expiry, and without a success. Its effect has begun, and its expiry, if it
    -- has one, is ahead.
    pub ghoul_event-Reports :
        (payload : Fields) (raw : Raw)
        → ghoul_event int_text payload ≡ ok raw
        → (t : Time) × (goals : List Fields) × (observed_time payload ≡ ok t)
          × (objects (get_field "Goals" payload) ≡ ok goals)
          × Reports env t raw (any (is_running t) goals)
    unfolding ghoul_event
    ghoul_event-Reports payload raw h = elim (Result-cases (observed_time payload)) [
      | inr (e, q) ↦ ground (arith, rw q at h)
      | inl (t, q) ↦ elim (Result-cases (objects (get_field "Goals" payload))) [
        | inr (e, p) ↦ ground (arith, rw (q, p) at h)
        | inl (goals, p) ↦ (
          t,
          goals,
          q,
          p,
          Reports-Cases t raw (any (is_running t) goals)
              (first_active-Cases t goals raw (rw (q, p) at h)),
        )
      ]
    ]
