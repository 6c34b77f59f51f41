-- ===== src/Publication/Dedupe.antt =====
-- An event is published once for each pair of event key and dedupe key.
use hermes_event_server.Base.{
  ◌≡◌, refl, sym, ◌≢◌, ◌⊎◌, inl, inr, true, false, Option, none, some, List, [], ◌∷◌, ◌++◌, arith,
  nat_beq, Bool-cases, Option-cases,
}
use hermes_event_server.Base.Equality.{string_eq, nat_eq, pair_eq}
use hermes_event_server.Base.Table.{get}
use hermes_event_server.Base.Action.{Error, publication_error, runtime_error, ok, err}
use hermes_event_server.Models.{
  Time, EventType, EventOccurrence, DomainEvent, DeliveryMessage, Database, event_type_key,
}
use hermes_event_server.Publication.{
  PublicationResult, Context, Messages, find_occurrence, occurrence_of, occurrence_taken,
  check_payload, notify, duplicate_of, insert_occurrence, publish_checked, publish, message_for,
}
use hermes_event_server.Schema.{Verdict, accepted, validate_payload, missing, refused, crashed}

-- Appending a row of a key that was not there makes it the row of that key.
find-append :
    (os : List EventOccurrence) (o : EventOccurrence)
    → find_occurrence o.event_key o.dedupe_key os ≡ none
    → find_occurrence o.event_key o.dedupe_key (os ++ o ∷ []) ≡ some o
unfolding find_occurrence
find-append [] o h = ground arith
find-append (x ∷ xs) o h = ground (arith, find-append xs o)

untaken_unfound :
    (event : DomainEvent) (os : List EventOccurrence)
    → occurrence_taken event os ≡ false
    → find_occurrence event.event_key event.dedupe_key os ≡ none
unfolding find_occurrence occurrence_taken
untaken_unfound event [] h = refl
untaken_unfound event (x ∷ xs) h = ground (arith, untaken_unfound event xs)

Verdict-cases : (v : Verdict) → (v ≡ accepted) ⊎ (v ≢ accepted)
Verdict-cases accepted = inl refl
Verdict-cases missing = inr (λ p. cc)
Verdict-cases refused = inr (λ p. cc)
Verdict-cases crashed = inr (λ p. cc)

module _ (c : Context) (event : DomainEvent) (messages : Messages) (due : Option Time) where
  -- The checks passed: an enabled type of the event's version admits the payload, and there is a
  -- default message.
  pub record IsChecked (db : Database) : Type 0 where
    pub event_type : EventType
    pub known : get event_type_key event.event_key db.event_types ≡ some event_type
    pub enabled : event_type.enabled ≡ true
    pub version : event_type.schema_version ≡ event.schema_version
    pub payload : validate_payload c.matches event_type.payload_schema event.payload ≡ accepted
    pub default : DeliveryMessage
    pub has_default : message_for "default" messages ≡ some default

  refuse_payload :
      (v : Verdict) (db : Database)
      → v ≢ accepted
      → (e : Error) × (check_payload v db ≡ (err e, db))
  refuse_payload accepted db h = absurd (h refl)
  refuse_payload missing db h = (publication_error, refl)
  refuse_payload refused db h = (publication_error, refl)
  refuse_payload crashed db h = (runtime_error, refl)

  -- A publication is refused by a check and writes nothing, or goes on with all checks passed.
  pub publish_cases :
      (db : Database)
      → ((e : Error) × (publish c event messages due db ≡ (err e, db)))
        ⊎ ((k : IsChecked db) × (publish c event messages due db
              ≡ publish_checked c k.event_type event messages k.default due db))
  unfolding publish
  publish_cases db = elim (Option-cases (get event_type_key event.event_key db.event_types)) [
    | inl e ↦ inl (publication_error, ground arith)
    | inr (t, e) ↦ elim (Bool-cases t.enabled) [
      | inr off ↦ inl (publication_error, ground arith)
      | inl on ↦ elim (Bool-cases (nat_beq t.schema_version event.schema_version)) [
        | inr other ↦ inl (publication_error, ground arith)
        | inl same ↦
            elim (Verdict-cases (validate_payload c.matches t.payload_schema event.payload)) [
              | inr bad ↦
                  let (x, ex) =
                    refuse_payload (validate_payload c.matches t.payload_schema event.payload) db
                      bad in
                  inl (x, ground arith)
              | inl good ↦ elim (Option-cases (message_for "default" messages)) [
                | inl f ↦ inl (publication_error, ground arith)
                | inr (m, f) ↦ inr (
                  record {
                    event_type = t;
                    known = e;
                    enabled = on;
                    version = ground arith;
                    payload = good;
                    default = m;
                    has_default = f;
                  },
                  ground arith,
                )
              ]
            ]
      ]
    ]
  ]

  -- A publication under a key that is stored writes nothing, and whatever it returns is the stored
  -- event as a duplicate.
  pub publish_stored :
      (db : Database) (o : EventOccurrence)
      → find_occurrence event.event_key event.dedupe_key db.occurrences ≡ some o
      → ((publish c event messages due db).1 ≡ db)
        × ((r : PublicationResult)
            → (publish c event messages due db).0 ≡ ok r
            → r ≡ duplicate_of o)
  unfolding publish_checked
  publish_stored db o h = elim (publish_cases db) [
    | inl (e, p) ↦ rw p (refl, λ r q. cc)
    | inr (k, p) ↦ rw p (ground arith, λ r q. ground arith)
  ]

  stored_by_notify :
      (event_type : EventType) (default : DeliveryMessage) (r : PublicationResult)
      (db₀ db' : Database)
      → notify c event_type event messages default due db₀ ≡ (ok r, db')
      → (db'.occurrences ≡ db₀.occurrences) × (r.event_id ≡ event.event_id)
  unfolding notify
  stored_by_notify event_type default r db₀ db' h = ground arith

  stored_by_insert :
      (event_type : EventType) (default : DeliveryMessage) (r : PublicationResult)
      (db db' : Database)
      → insert_occurrence c event_type event messages default due db ≡ (ok r, db')
      → (o : EventOccurrence) × (find_occurrence event.event_key event.dedupe_key db'.occurrences
          ≡ some o)
        × (o.event_id ≡ r.event_id)
  unfolding insert_occurrence
  stored_by_insert event_type default r db db' h =
      let os = c.others ++ db.occurrences in
      elim (Bool-cases (occurrence_taken event os)) [
        | inl taken ↦ elim (Option-cases (find_occurrence event.event_key event.dedupe_key os)) [
          | inl e ↦ absurd (ground arith)
          | inr (o, e) ↦ (o, ground arith, ground arith)
        ]
        | inr free ↦
            let next = record db { occurrences = os ++ occurrence_of event ∷ [] } in
            let (same, id) = stored_by_notify event_type default r next db' (ground arith) in
            (
              occurrence_of event,
              rw same (find-append os (occurrence_of event) (untaken_unfound event os free)),
              sym id,
            )
      ]

  publish-stored :
      (r : PublicationResult) (db db' : Database)
      → publish c event messages due db ≡ (ok r, db')
      → (o : EventOccurrence) × (find_occurrence event.event_key event.dedupe_key db'.occurrences
          ≡ some o)
        × (o.event_id ≡ r.event_id)
  unfolding publish_checked
  publish-stored r db db' h = elim (publish_cases db) [
    | inl (e, p) ↦ absurd (cc)
    | inr (k, p) ↦
        elim (Option-cases (find_occurrence event.event_key event.dedupe_key db.occurrences)) [
          | inl none_yet ↦ stored_by_insert k.event_type k.default r db db' (ground arith)
          | inr (o, e) ↦ (o, ground arith, ground arith)
        ]
  ]

-- After a publication that returned, every later one with the same event key and dedupe key,
-- whatever else it carries and whoever else writes occurrences meanwhile, writes nothing; if it
-- returns, it returns the first one's event as a duplicate with no deliveries.
pub publish_again :
    (c c' : Context) (event event' : DomainEvent) (messages messages' : Messages)
    (due due' : Option Time) (r : PublicationResult) (db db' : Database)
    → publish c event messages due db ≡ (ok r, db')
    → event'.event_key ≡ event.event_key
    → event'.dedupe_key ≡ event.dedupe_key
    → ((publish c' event' messages' due' db').1 ≡ db')
      × ((r' : PublicationResult)
          → (publish c' event' messages' due' db').0 ≡ ok r'
          → r' ≡ record { event_id = r.event_id; created = false; deliveries_created = 0 })
publish_again c c' event event' messages messages' due due' r db db' h same_key same_dedupe =
    let (o, e, id) = publish-stored c event messages due r db db' h in
    let found : find_occurrence event'.event_key event'.dedupe_key db'.occurrences ≡ some o =
      rw (same_key, same_dedupe) e in
    let (unchanged, duplicate) = publish_stored c' event' messages' due' db' o found in
    (unchanged, λ r' q. rw (← id) (duplicate r' q))
