-- ===== src/Processing.antt =====
-- src/eventserver/core/processing.py: a provider's raw data becomes an observation, the observation is
-- compared with the last one, and the events of the change are published. `dumps` is the canonical
-- `json.dumps`, `sha256` the hex digest, `contexts i` the environment of the i-th publication.
pub mod Again
pub mod Kept
use hermes_event_server.Base.{
  ℕ, zero, suc, ◌+◌, ◌-◌, ◌*◌, ◌/◌, ◌%◌, ◌^◌, ◌≤◌, ◌<◌, min, max, String, ◌≡◌, refl, sym, ap, subst,
  ◌∙◌, ◌≢◌, ◌↔◌, ◌⊎◌, inl, inr, Bool, true, false, not, ◌&&◌, ◌||◌, Option, none, some, List, [],
  ◌∷◌, ◌++◌, map, arith, All, is_some, get_or, ltb, leb, nat_beq, if◌then◌else◌, ltb→lt, leb→le,
  Bool-cases, Option-cases, take, select, any, insert_by, sort_by, length, length-append,
  length-take-le, All-take, All-append, All-select, All-select_of, All-insert_by, All-sort_by,
  All-map2,
}
use hermes_event_server.Base.Equality.{
  Eq, ◌==◌, contains, string_eq, nat_eq, pair_eq, string_discrete, distinct,
}
use hermes_event_server.Base.Table.{
  get, put, delete, get-put, get-put_self, get-put_ne, get-put_at, put-put, get-delete, get_absent,
  key-get, IsKeyed, Found, put-IsKeyed, delete-IsKeyed, select-IsKeyed, take-IsKeyed,
  sort_by-IsKeyed, rows-Found, All-put, All-get, All-delete,
}
use hermes_event_server.Base.Action.{
  Error, lease_conflict_error, authorization_error, last_admin_error, value_error,
  event_not_found_error, match_key_error, invalid_match_key_error, publication_error,
  pairing_code_error, first_admin_bootstrap_error, lookup_error, key_error, runtime_error,
  integrity_error, Result, Result-cases, ok, err, Action, pure, raise, lift, gets, or_raise, modify,
  raise_if, ◌>>=◌, ◌>>◌,
}
use hermes_event_server.Json.{
  Json, Items, Fields, null, bool, int, float, str, list, dict, nil, cons, end, field, get_field,
  has_field, item_list, count_items, keys, str_items, optional_str, number_lt, number_eq, as_number,
}
use hermes_event_server.Models.{
  Time, seconds, Role, user, admin, AccountStatus, active, blocked, User, UserPermission, EventType,
  EventPublisher, EventAlias, ProviderInstance, ProviderCheckpoint, ObservationRecord,
  EventOccurrence, Subscription, DeliveryStatus, pending, leased, retry, sent, dead, Delivery,
  PairingCode, AuditLog, Observation, DomainEvent, DeliveryMessage, model_dump, Database,
  empty_database, user_key, permission_key, event_type_key, alias_key, instance_key, checkpoint_key,
  subscription_key, delivery_key, pairing_key, publisher_key,
}
use hermes_event_server.Registry.{Raw, Provider, ProviderRegistry, get_provider, provider_for_event}
use hermes_event_server.Publication.{PublicationResult, Context, publish}
use hermes_event_server.Leases.{new_checkpoint, or_new_checkpoint}

pub record ProcessingResult : Type 0 where
  pub baseline_created : Bool
  pub unchanged : Bool
  pub publications : List PublicationResult

abbrev pub enabled_instance : Option ProviderInstance → Option ProviderInstance
enabled_instance none = none
enabled_instance (some p) = if p.enabled then some p else none

-- `session.get(ProviderCheckpoint, ..)`, and the insertion of a new row where there is none.
unfoldable pub get_or_add_checkpoint : String → Action Database ProviderCheckpoint
get_or_add_checkpoint id db =
    let c = or_new_checkpoint (get checkpoint_key id db.checkpoints) id in
    (ok c, record db { checkpoints = put checkpoint_key c db.checkpoints })

abbrev pub save_checkpoint : ProviderCheckpoint → Action Database (Unit {0})
save_checkpoint c = modify (λ db. record db { checkpoints = put checkpoint_key c db.checkpoints })

abbrev pub is_same : Option String → String → Bool
is_same none s = false
is_same (some t) s = t == s

abbrev pub previous_of :
    Option String → Option Fields → Option Time → Observation → Option Observation
previous_of none state last current = none
previous_of (some identity) none last current = none
previous_of (some identity) (some state) last current = some (record {
  provider_key = current.provider_key;
  schema_version = current.schema_version;
  identity = identity;
  observed_at = get_or last current.observed_at;
  effective_at = get_or last current.observed_at;
  expires_at = none;
  state = state;
  source_metadata = field "source" (str "provider-checkpoint") end;
})

-- `_previous`
unfoldable pub previous : ProviderCheckpoint → Observation → Option Observation
previous c current = previous_of c.last_identity c.state c.last_success_at current

abbrev pub is_observation : String → String → ObservationRecord → Bool
is_observation id identity o = (o.provider_instance_id == id) && (o.identity == identity)

abbrev pub observation_record : String → Observation → ObservationRecord
observation_record id current = record {
  provider_instance_id = id;
  schema_version = current.schema_version;
  identity = current.identity;
  observed_at = current.observed_at;
  effective_at = current.effective_at;
  expires_at = current.expires_at;
  state = current.state;
  source_metadata = current.source_metadata;
}

-- `_save_observation`
unfoldable pub save_observation : String → Observation → Action Database (Unit {0})
save_observation id current = modify (λ db.
    if any (is_observation id current.identity) db.observations
    then db
    else record db { observations = db.observations ++ observation_record id current ∷ [] })

abbrev pub render_event : ProviderRegistry → DomainEvent → Result DeliveryMessage
render_event registry event = elim (provider_for_event event.event_key registry) [
  | none ↦ err key_error
  | some p ↦ p.render event
]

-- The publications, in the order of the events; the first error ends them.
unfoldable pub publish_all :
    ProviderRegistry
    → (ℕ → Context)
    → ℕ
    → List DomainEvent
    → Action Database (List PublicationResult)
publish_all registry contexts i [] = pure []
publish_all registry contexts i (event ∷ events) = do
  message ← lift (render_event registry event)
  result ← publish (contexts i) event (("default", message) ∷ []) none
  rest ← publish_all registry contexts (suc i) events
  pure (result ∷ rest)

abbrev pub succeeded : Observation → ProviderCheckpoint → ProviderCheckpoint
succeeded current c = record c {
  last_success_at = some current.observed_at;
  consecutive_failures = 0;
}

module _ (sha256 : String → String) (dumps : Fields → String) where
  -- `_state_hash`
  unfoldable pub state_hash : Observation → String
  state_hash current = sha256 (dumps current.state)

  abbrev pub is_unchanged : ProviderCheckpoint → Observation → Bool
  is_unchanged c current =
      is_same c.last_identity current.identity && is_same c.state_hash (state_hash current)

  abbrev pub advanced : Observation → ProviderCheckpoint → ProviderCheckpoint
  advanced current c = succeeded current (record c {
    last_identity = some current.identity;
    state_hash = some (state_hash current);
    state = some current.state;
  })

  -- The part of `process` for a new observation.
  unfoldable pub process_change :
      ProviderRegistry
      → (ℕ → Context)
      → String
      → Provider
      → ProviderCheckpoint
      → Observation
      → Action Database ProcessingResult
  process_change registry contexts id provider c current = do
    events ← lift (provider.evaluate (previous c current) current)
    save_observation id current
    publications ← publish_all registry contexts 0 events
    save_checkpoint (advanced current c)
    pure (record {
      baseline_created = not (is_some c.last_identity);
      unchanged = false;
      publications = publications;
    })

  abbrev pub process_unchanged : ProviderCheckpoint → Observation → Action Database ProcessingResult
  process_unchanged c current = do
    save_checkpoint (succeeded current c)
    pure (record { baseline_created = false; unchanged = true; publications = [] })

  unfoldable pub process :
      ProviderRegistry → (ℕ → Context) → String → Raw → Action Database ProcessingResult
  process registry contexts id raw = do
    found ← gets (λ db. get instance_key id db.instances)
    instance_row ← or_raise (enabled_instance found) lookup_error
    provider ← or_raise (get_provider instance_row.provider_key registry) key_error
    current ← lift (provider.normalize raw)
    raise_if (not (current.provider_key == instance_row.provider_key)) value_error
    c ← get_or_add_checkpoint id
    if is_unchanged c current
        then process_unchanged c current
        else process_change registry contexts id provider c current

abbrev pub failed_once : ProviderCheckpoint → ProviderCheckpoint
failed_once c = record c { consecutive_failures = c.consecutive_failures + 1 }

unfoldable pub record_failure : String → Action Database (Unit {0})
record_failure id = do c ← get_or_add_checkpoint id; save_checkpoint (failed_once c)
