-- ===== src/Warframe/Phases.antt =====
-- The night of Cetus from the world state to the alert: adapter, normalization and evaluation.
use hermes_event_server.Base.{
  ◌+◌, ◌-◌, ◌≤◌, ◌<◌, String, ◌≡◌, refl, sym, ap, ◌∙◌, ◌⊎◌, inl, inr, Bool, true, false, not, ◌&&◌,
  Option, some, [], ◌∷◌, arith, leb, if◌then◌else◌,
}
use hermes_event_server.Base.Equality.{string_eq, nat_eq, pair_eq, string_discrete}
use hermes_event_server.Base.Table.{get}
use hermes_event_server.Base.Action.{Result-cases, ok}
use hermes_event_server.Json.{Fields, bool, end, field, get_field}
use hermes_event_server.Models.{Time, seconds, Observation}
use hermes_event_server.Base.Int.{ℤ}
use hermes_event_server.Warframe.{
  Environment, raw_get, parse_time, optional_time, require_str, require_bool, observation,
}
use hermes_event_server.Warframe.WorldState.{
  cetus_night, cetus_phase, cetus_mission, observed_time, bson_date, seconds_before, cetus_report,
}
use hermes_event_server.Warframe.Times.{to_minute, timestamp}
use hermes_event_server.Warframe.CetusNight.{normalize, evaluate, started}
use hermes_event_server.Base.Format.{concat, decimal_ℤ}
use hermes_event_server.Registry.{Raw}

if-ok : {A : Type 0} (b : Bool) (x y : A) → (if b then ok x else ok y) ≡ ok (if b then x else y)
if-ok true x y = refl
if-ok false x y = refl

module _ (env : Environment) where
  -- What an observation says of the bounty that ends at `bounty_end`, and what is made of it.
  pub record IsPhase (bounty_end : Time) (o : Observation) : Type 0 where
    pub night : Bool
    pub is_said : get_field "is_night" o.state ≡ some (bool night)
    pub ahead : o.observed_at < bounty_end
    pub is_night : night ≡ leb bounty_end (o.observed_at + seconds 3000)
    pub begun : o.effective_at ≤ o.observed_at
    pub phase_end : Time
    pub expires : o.expires_at ≡ some phase_end
    pub lasts : o.observed_at < phase_end
    pub ends : phase_end + (if night then 0 else seconds 3000) ≡ bounty_end
    pub began : (night ≡ false) ⊎ (o.effective_at + seconds 3000 ≡ bounty_end)

  module _ (int_text : String → Option ℤ) where
    abbrev phase_observation : Time → String → Bool → Time → Time → Time → Observation
    phase_observation bounty_end phase is_night observed_at effective_at expires_at =
        observation "warframe.cetus_night"
          (concat ("cetus:" ∷ decimal_ℤ (timestamp bounty_end) ∷ ":" ∷ phase ∷ [])) observed_at
          effective_at (some expires_at) (field "is_night" (bool is_night) end)

    normalize-cetus_report :
        (e : Time) (phase : String) (b : Bool) (t s x : Time)
        → normalize env (cetus_report int_text e phase b t s x)
          ≡ ok (phase_observation e phase b t s x)
    unfolding normalize raw_get get parse_time optional_time require_str require_bool
        string_discrete
    normalize-cetus_report e phase b t s x = refl

    phase_cases :
        (t e : Time) (raw : Raw)
        → cetus_phase int_text t e ≡ ok raw
        → (t < e)
          × (seconds 3000 ≤ e)
          × ((e ≤ t + seconds 3000)
                × (raw ≡ cetus_report int_text e "night" true t (e - seconds 3000) e)
              ⊎ (t + seconds 3000 < e)
                × (raw ≡ cetus_report int_text e "day" false t t (e - seconds 3000)))
    unfolding cetus_phase seconds_before
    phase_cases t e raw h = ground arith

    cetus_phase-IsPhase :
        (t e : Time) (raw : Raw)
        → cetus_phase int_text t e ≡ ok raw
        → (o : Observation) × (normalize env raw ≡ ok o) × (o.observed_at ≡ t) × IsPhase e o
    unfolding observation string_discrete
    cetus_phase-IsPhase t e raw h =
        let (ahead, room, phase) = phase_cases t e raw h in
        elim phase [
          | inl (near, q) ↦ (
            phase_observation e "night" true t (e - seconds 3000) e,
            rw q (normalize-cetus_report e "night" true t (e - seconds 3000) e),
            refl,
            record {
              night = true;
              is_said = refl;
              ahead = ahead;
              is_night = ground arith;
              begun = omega arith;
              phase_end = e;
              expires = refl;
              lasts = ahead;
              ends = omega arith;
              began = inr (omega arith);
            },
          )
          | inr (far, q) ↦ (
            phase_observation e "day" false t t (e - seconds 3000),
            rw q (normalize-cetus_report e "day" false t t (e - seconds 3000)),
            refl,
            record {
              night = false;
              is_said = refl;
              ahead = ahead;
              is_night = ground arith;
              begun = omega arith;
              phase_end = e - seconds 3000;
              expires = refl;
              lasts = omega arith;
              ends = omega arith;
              began = inl refl;
            },
          )
        ]

    -- The parts of an accepted world state.
    cetus_parts :
        (payload : Fields) (raw : Raw)
        → cetus_night int_text payload ≡ ok raw
        → (t : Time) × (mission : Fields) × (expiry : Time) × (observed_time payload ≡ ok t)
          × (cetus_mission payload ≡ ok mission)
          × (bson_date int_text (get_field "Expiry" mission) ≡ ok expiry)
          × (cetus_phase int_text t (to_minute expiry) ≡ ok raw)
    unfolding cetus_night
    cetus_parts payload raw h = elim (Result-cases (observed_time payload)) [
      | inr (x, q) ↦ ground (arith, rw q at h)
      | inl (t, q) ↦ elim (Result-cases (cetus_mission payload)) [
        | inr (x, p) ↦ ground (arith, rw (q, p) at h)
        | inl (m, p) ↦ elim (Result-cases (bson_date int_text (get_field "Expiry" m))) [
          | inr (x, r) ↦ ground (arith, rw (q, p, r) at h)
          | inl (e, r) ↦ (t, m, e, q, p, r, rw (q, p, r) at h)
        ]
      ]
    ]

  evaluate_lem :
      (previous o : Observation) (b : Bool) (e : Time) (p : IsPhase e o)
      → get_field "is_night" previous.state ≡ some (bool b)
      → evaluate env (some previous) o
        ≡ ok (if not b && leb e (o.observed_at + seconds 3000) then started env o ∷ [] else [])
  unfolding evaluate
  evaluate_lem previous o true e p h = rw (evaluate, h) refl
  evaluate_lem previous o false e p h =
      rw (evaluate, h, p.is_said, ← p.is_night) (if-ok p.night (started env o ∷ []) [])

  module _ (int_text : String → Option ℤ) where
    -- For a world state that the adapter accepts: the provider accepts the adapter's report too; the
    -- observation is of the world state's time, and of the phase of the bounty that ends at the
    -- mission's expiry, in whole minutes: the phase has begun and has not ended, it is night in the
    -- last 3000 seconds before the bounty's end, and the night begins 3000 seconds before it; and
    -- against an earlier observation exactly one event is raised when that was a day and this is a
    -- night, and none otherwise.
    pub cetus_night-IsPhase :
        (payload : Fields) (raw : Raw) (previous : Observation) (b : Bool)
        → cetus_night int_text payload ≡ ok raw
        → get_field "is_night" previous.state ≡ some (bool b)
        → (o : Observation) × (mission : Fields) × (expiry : Time) × (normalize env raw ≡ ok o)
          × (observed_time payload ≡ ok o.observed_at)
          × (cetus_mission payload ≡ ok mission)
          × (bson_date int_text (get_field "Expiry" mission) ≡ ok expiry)
          × IsPhase (to_minute expiry) o
          × (evaluate env (some previous) o
              ≡ ok (
                  if not b && leb (to_minute expiry) (o.observed_at + seconds 3000)
                  then started env o ∷ []
                  else []))
    cetus_night-IsPhase payload raw previous b h d =
        let (t, m, e, q, p, r, f) = cetus_parts int_text payload raw h in
        let (o, n, same, phase) = cetus_phase-IsPhase int_text t (to_minute e) raw f in
        (
          o,
          m,
          e,
          n,
          q ∙ ap ok (sym same),
          p,
          r,
          phase,
          evaluate_lem previous o b (to_minute e) phase d,
        )
