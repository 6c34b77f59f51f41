-- ===== src/Processing/Kept.antt =====
-- What a publication leaves alone, for a run of the processor: instances and checkpoints.
use hermes_event_server.Base.{ℕ, suc, ◌≡◌, refl, inl, inr, Option, none, List, [], ◌∷◌, ◌++◌, arith}
use hermes_event_server.Base.Equality.{string_eq, nat_eq, pair_eq}
use hermes_event_server.Base.Action.{Result-cases, Action, pure, lift, ◌>>=◌}
use hermes_event_server.Models.{Time, EventType, DomainEvent, DeliveryMessage, Database}
use hermes_event_server.Registry.{ProviderRegistry}
use hermes_event_server.Publication.{
  PublicationResult, Context, Messages, publish, publish_checked, insert_occurrence, notify,
  occurrence_of,
}
use hermes_event_server.Publication.Dedupe.{publish_cases}
use hermes_event_server.Processing.{publish_all, render_event}

-- A publication leaves the provider instances and the checkpoints alone.
abbrev pub Keeps : Database → Database → Type 0
Keeps db db' = (db'.instances ≡ db.instances) × (db'.checkpoints ≡ db.checkpoints)

notify-Keeps :
    (c : Context) (event_type : EventType) (event : DomainEvent) (messages : Messages)
    (default : DeliveryMessage) (due : Option Time) (db : Database)
    → Keeps db (notify c event_type event messages default due db).1
unfolding notify
notify-Keeps c event_type event messages default due db = ground arith

insert-Keeps :
    (c : Context) (event_type : EventType) (event : DomainEvent) (messages : Messages)
    (default : DeliveryMessage) (due : Option Time) (db : Database)
    → Keeps db (insert_occurrence c event_type event messages default due db).1
unfolding insert_occurrence
insert-Keeps c event_type event messages default due db = ground (
  arith,
  notify-Keeps c event_type event messages default due
      (record db { occurrences = (c.others ++ db.occurrences) ++ occurrence_of event ∷ [] }),
)

checked-Keeps :
    (c : Context) (event_type : EventType) (event : DomainEvent) (messages : Messages)
    (default : DeliveryMessage) (due : Option Time) (db : Database)
    → Keeps db (publish_checked c event_type event messages default due db).1
unfolding publish_checked
checked-Keeps c event_type event messages default due db =
    ground (arith, insert-Keeps c event_type event messages default due db)

publish-Keeps :
    (c : Context) (event : DomainEvent) (messages : Messages) (due : Option Time) (db : Database)
    → Keeps db (publish c event messages due db).1
publish-Keeps c event messages due db = elim (publish_cases c event messages due db) [
  | inl (e, p) ↦ rw p (refl, refl)
  | inr (k, p) ↦ rw p (checked-Keeps c k.event_type event messages k.default due db)
]

bind-Keeps :
    {A B : Type 0} (m : Action Database A) (f : A → Action Database B)
    → ((db : Database) → Keeps db (m db).1)
    → ((a : A) (db : Database) → Keeps db (f a db).1)
    → (db : Database) → Keeps db ((m >>= f) db).1
bind-Keeps m f hm hf db = elim (Result-cases (m db).0) [
  | inl (a, e) ↦ ground (arith, hm db, hf a (m db).1)
  | inr (x, e) ↦ ground (arith, hm db)
]

-- The turn of the loop after the event is rendered, and after it is published.
abbrev rest_then :
    ProviderRegistry
    → (ℕ → Context)
    → ℕ
    → List DomainEvent
    → PublicationResult
    → Action Database (List PublicationResult)
rest_then registry contexts i events result =
    publish_all registry contexts (suc i) events >>= λ rest. pure (result ∷ rest)

abbrev publish_then :
    ProviderRegistry
    → (ℕ → Context)
    → ℕ
    → DomainEvent
    → List DomainEvent
    → DeliveryMessage
    → Action Database (List PublicationResult)
publish_then registry contexts i event events message =
    publish (contexts i) event (("default", message) ∷ []) none
    >>= rest_then registry contexts i events

pub publish_all-Keeps :
    (registry : ProviderRegistry) (contexts : ℕ → Context) (i : ℕ) (events : List DomainEvent)
    (db : Database)
    → Keeps db (publish_all registry contexts i events db).1
unfolding publish_all
publish_all-Keeps registry contexts i [] db = (refl, refl)
publish_all-Keeps registry contexts i (event ∷ events) db =
    bind-Keeps (lift (render_event registry event)) (publish_then registry contexts i event events)
      (λ db. (refl, refl))
      (λ message.
        bind-Keeps (publish (contexts i) event (("default", message) ∷ []) none)
          (rest_then registry contexts i events)
          (publish-Keeps (contexts i) event (("default", message) ∷ []) none)
          (λ result.
            bind-Keeps (publish_all registry contexts (suc i) events) (λ rest. pure (result ∷ rest))
              (publish_all-Keeps registry contexts (suc i) events) (λ rest db. (refl, refl))))
      db
