-- ===== src/Api/PublishRoutes/Outcome.antt =====
-- What a publisher's request does, on every branch.
use hermes_event_server.Base.{
  ℕ, ◌+◌, ◌≤◌, String, ◌≡◌, refl, ◌⊎◌, inl, inr, true, Option, none, some, [], ◌∷◌, ◌++◌, arith,
  Bool-cases, Option-cases,
}
use hermes_event_server.Base.Equality.{string_eq, nat_eq, pair_eq}
use hermes_event_server.Base.Action.{
  Error, lease_conflict_error, authorization_error, last_admin_error, value_error,
  event_not_found_error, match_key_error, invalid_match_key_error, publication_error,
  pairing_code_error, first_admin_bootstrap_error, lookup_error, key_error, runtime_error,
  integrity_error, overflow_error, attribute_error, world_state_schema_error, configuration_error,
  publish_error, submission_error, database_error, zero_division_error, Result-cases, ok, ◌>>=◌,
}
use hermes_event_server.Models.{Time, seconds, EventPublisher, Database}
use hermes_event_server.Publication.{Context, PublicationResult, publish}
use hermes_event_server.Api.{Reply, reply, http_exception, uncaught, raised, handle}
use hermes_event_server.Api.PublishRoutes.{
  PublishEventRequest, PublishEventResponse, resolve_notify_at, event_of, publish_entry,
  response_of, may_publish, publish_errors, publish_audited, publish_event,
}

-- At once, or between now and the horizon.
abbrev pub InWindow : Time → ℕ → Option Time → Type 0
InWindow now horizon none = Unit
InWindow now horizon (some t) = (now ≤ t) × (t ≤ now + seconds horizon)

resolve_notify_at-InWindow :
    (notify_at due : Option Time) (now : Time) (horizon : ℕ)
    → resolve_notify_at notify_at now horizon ≡ some due
    → InWindow now horizon due
unfolding resolve_notify_at
resolve_notify_at-InWindow none none now horizon h = tt
resolve_notify_at-InWindow none (some t) now horizon h = absurd (ground arith)
resolve_notify_at-InWindow (some v) none now horizon h = absurd (ground arith)
resolve_notify_at-InWindow (some v) (some t) now horizon h = ground arith

module _ (isoformat : Time → String) (horizon : ℕ) (c : Context) (publisher : EventPublisher)
    (body : PublishEventRequest) (event_id request_id : String) (now : Time) where
  -- What is published and recorded by a request that is answered.
  pub record IsPublished (db db' : Database) (r : PublishEventResponse) : Type 0 where
    pub allowed : may_publish publisher body.event_key ≡ true
    pub window : InWindow now horizon r.notify_at
    pub result : PublicationResult
    pub after : Database
    pub published :
        publish c (event_of body event_id publisher.publisher_key) body.messages r.notify_at db
        ≡ (ok result, after)
    pub response : r ≡ response_of result r.notify_at
    pub recorded : db' ≡ record after {
      audit_logs =
          after.audit_logs
          ++ publish_entry isoformat publisher.publisher_key body.event_key request_id r.notify_at
              result
            ∷ [];
    }

  abbrev pub Outcome : Database → Reply PublishEventResponse × Database → Type 0
  Outcome db (reply r, db') = IsPublished db db' r
  Outcome db (http_exception code, db') =
      (db' ≡ db) × ((code ≡ 403) ⊎ ((code ≡ 422) × (may_publish publisher body.event_key ≡ true)))
  Outcome db (uncaught e, db') = db' ≡ db

  publish_error-Outcome :
      (e : Error) (db : Database)
      → may_publish publisher body.event_key ≡ true
      → Outcome db (raised (publish_errors e) e, db)
  publish_error-Outcome publication_error db h = (refl, inr (refl, h))
  publish_error-Outcome lease_conflict_error db h = refl
  publish_error-Outcome authorization_error db h = refl
  publish_error-Outcome last_admin_error db h = refl
  publish_error-Outcome value_error db h = refl
  publish_error-Outcome event_not_found_error db h = refl
  publish_error-Outcome match_key_error db h = refl
  publish_error-Outcome invalid_match_key_error db h = refl
  publish_error-Outcome pairing_code_error db h = refl
  publish_error-Outcome first_admin_bootstrap_error db h = refl
  publish_error-Outcome lookup_error db h = refl
  publish_error-Outcome key_error db h = refl
  publish_error-Outcome runtime_error db h = refl
  publish_error-Outcome integrity_error db h = refl
  publish_error-Outcome overflow_error db h = refl
  publish_error-Outcome attribute_error db h = refl
  publish_error-Outcome world_state_schema_error db h = refl
  publish_error-Outcome configuration_error db h = refl
  publish_error-Outcome publish_error db h = refl
  publish_error-Outcome submission_error db h = refl
  publish_error-Outcome database_error db h = refl
  publish_error-Outcome zero_division_error db h = refl

  audited-Outcome :
      (due : Option Time) (db : Database)
      → may_publish publisher body.event_key ≡ true
      → InWindow now horizon due
      → Outcome db (
          handle publish_errors
            (publish_audited isoformat horizon c publisher body event_id request_id due)
            db)
  unfolding handle publish_audited
  audited-Outcome due db may window =
      let p = publish c (event_of body event_id publisher.publisher_key) body.messages due db in
      elim (Result-cases p.0) [
        | inr (e, q) ↦ rw (◌>>=◌, q) (publish_error-Outcome e db may)
        | inl (result, q) ↦
            rw (◌>>=◌, q)
              (record {
                allowed = may;
                window = window;
                result = result;
                after = p.1;
                published = (λ i. (q i, p.1));
                response = refl;
                recorded = refl;
              })
      ]

  -- A request is answered only if the event's key starts with a prefix of the publisher; then the
  -- event is published, due at once or between now and the horizon, with one audit entry beside what
  -- the publication writes. Any other request leaves the database as it was.
  pub publish_event-Outcome :
      (db : Database)
      → Outcome db (publish_event isoformat horizon c publisher body event_id request_id now db)
  unfolding publish_event
  publish_event-Outcome db = elim (Bool-cases (may_publish publisher body.event_key)) [
    | inr denied ↦ rw denied (refl, inl refl)
    | inl may ↦ elim (Option-cases (resolve_notify_at body.notify_at now horizon)) [
      | inl e ↦ rw (may, e) (refl, inr (refl, may))
      | inr (due, e) ↦
          rw (may, e)
            (audited-Outcome due db may
              (resolve_notify_at-InWindow body.notify_at due now horizon e))
    ]
  ]
