-- ===== src/Leases.antt =====
-- src/eventserver/scheduler/leases.py: schedulers claim the provider instances that are due. `locked`
-- says which rows other transactions hold (SKIP LOCKED), `now` is the time of the claim.
pub mod Exclusive
use hermes_event_server.Base.{
  ℕ, zero, suc, ◌+◌, ◌-◌, ◌*◌, ◌/◌, ◌%◌, ◌^◌, ◌≤◌, ◌<◌, min, max, String, ◌≡◌, refl, sym, ap, subst,
  ◌∙◌, ◌≢◌, ◌↔◌, ◌⊎◌, inl, inr, Bool, true, false, not, ◌&&◌, ◌||◌, Option, none, some, List, [],
  ◌∷◌, ◌++◌, map, arith, All, is_some, get_or, ltb, leb, nat_beq, if◌then◌else◌, ltb→lt, leb→le,
  Bool-cases, Option-cases, take, select, any, insert_by, sort_by, length, length-append,
  length-take-le, All-take, All-append, All-select, All-select_of, All-insert_by, All-sort_by,
  All-map2,
}
use hermes_event_server.Base.Equality.{
  Eq, ◌==◌, contains, string_eq, nat_eq, pair_eq, string_discrete, distinct,
}
use hermes_event_server.Base.Table.{
  get, put, delete, get-put, get-put_self, get-put_ne, get-put_at, put-put, get-delete, get_absent,
  key-get, IsKeyed, Found, put-IsKeyed, delete-IsKeyed, select-IsKeyed, take-IsKeyed,
  sort_by-IsKeyed, rows-Found, All-put, All-get, All-delete,
}
use hermes_event_server.Base.Action.{
  Error, lease_conflict_error, authorization_error, last_admin_error, value_error,
  event_not_found_error, match_key_error, invalid_match_key_error, publication_error,
  pairing_code_error, first_admin_bootstrap_error, lookup_error, key_error, runtime_error,
  integrity_error, Result, Result-cases, ok, err, Action, pure, raise, lift, gets, or_raise, modify,
  raise_if, ◌>>=◌, ◌>>◌,
}
use hermes_event_server.Json.{
  Json, Items, Fields, null, bool, int, float, str, list, dict, nil, cons, end, field, get_field,
  has_field, item_list, count_items, keys, str_items, optional_str, number_lt, number_eq, as_number,
}
use hermes_event_server.Models.{
  Time, seconds, Role, user, admin, AccountStatus, active, blocked, User, UserPermission, EventType,
  EventPublisher, EventAlias, ProviderInstance, ProviderCheckpoint, ObservationRecord,
  EventOccurrence, Subscription, DeliveryStatus, pending, leased, retry, sent, dead, Delivery,
  PairingCode, AuditLog, Observation, DomainEvent, DeliveryMessage, model_dump, Database,
  empty_database, user_key, permission_key, event_type_key, alias_key, instance_key, checkpoint_key,
  subscription_key, delivery_key, pairing_key, publisher_key,
}
use hermes_event_server.Base.Text.{text_le}

pub record ProviderLease : Type 0 where
  pub provider_instance_id : String
  pub provider_key : String
  pub config : Fields
  pub lease_until : Time

-- `next_run_at IS NULL OR next_run_at <= now`
abbrev pub run_is_due : Time → Option Time → Bool
run_is_due now none = true
run_is_due now (some t) = leb t now

-- There is no checkpoint, it has no lease, or `lease_until < now`.
abbrev pub lease_is_free : Time → Option Time → Bool
lease_is_free now none = true
lease_is_free now (some t) = ltb t now

abbrev pub checkpoint_is_free : Time → Option ProviderCheckpoint → Bool
checkpoint_is_free now none = true
checkpoint_is_free now (some c) = lease_is_free now c.lease_until

-- The outer join is on the primary key of the checkpoints.
unfoldable pub is_due : (String → Bool) → List ProviderCheckpoint → Time → ProviderInstance → Bool
is_due locked checkpoints now p =
    p.enabled
    && (run_is_due now p.next_run_at
        && (checkpoint_is_free now (get checkpoint_key p.provider_instance_id checkpoints)
            && not (locked p.provider_instance_id)))

-- `ORDER BY next_run_at, provider_instance_id`; NULL comes first.
abbrev pub runs_first : Option Time → Option Time → Bool → Bool
runs_first none none by_id = by_id
runs_first none (some t) by_id = true
runs_first (some s) none by_id = false
runs_first (some s) (some t) by_id = ltb s t || (nat_beq s t && by_id)

abbrev pub comes_first : ProviderInstance → ProviderInstance → Bool
comes_first a b =
    runs_first a.next_run_at b.next_run_at (text_le a.provider_instance_id b.provider_instance_id)

unfoldable pub due_provider_statement :
    (String → Bool) → ℕ → Time → Database → List ProviderInstance
due_provider_statement locked limit now db =
    take limit (sort_by comes_first (select (is_due locked db.checkpoints now) db.instances))

-- A new row with the column defaults.
abbrev pub new_checkpoint : String → ProviderCheckpoint
new_checkpoint id = record {
  provider_instance_id = id;
  cursor = end;
  last_identity = none;
  state_hash = none;
  state = none;
  last_success_at = none;
  consecutive_failures = 0;
  lease_owner = none;
  lease_until = none;
}

abbrev pub or_new_checkpoint : Option ProviderCheckpoint → String → ProviderCheckpoint
or_new_checkpoint none id = new_checkpoint id
or_new_checkpoint (some c) id = c

-- `instance.interval_seconds or lease_seconds`
abbrev pub interval : Option ℕ → ℕ → ℕ
interval none lease_seconds = lease_seconds
interval (some n) lease_seconds = if nat_beq n 0 then lease_seconds else n

-- The arguments of `claim_due_providers`.
pub record LeaseRequest : Type 0 where
  pub owner : String
  pub limit : ℕ
  pub lease_seconds : ℕ

abbrev pub leased_checkpoint : LeaseRequest → Time → ProviderCheckpoint → ProviderCheckpoint
leased_checkpoint r now c = record c {
  lease_owner = some r.owner;
  lease_until = some (now + seconds r.lease_seconds);
}

abbrev pub scheduled : LeaseRequest → Time → ProviderInstance → ProviderInstance
scheduled r now p = record p {
  next_run_at = some (now + seconds (interval p.interval_seconds r.lease_seconds));
}

-- One turn of the loop.
unfoldable pub lease_provider : LeaseRequest → Time → ProviderInstance → Database → Database
lease_provider r now p db = record db {
  checkpoints =
      put checkpoint_key
        (leased_checkpoint r now (
          or_new_checkpoint (get checkpoint_key p.provider_instance_id db.checkpoints)
            p.provider_instance_id))
        db.checkpoints;
  instances = put instance_key (scheduled r now p) db.instances;
}

abbrev pub provider_lease : LeaseRequest → Time → ProviderInstance → ProviderLease
provider_lease r now p = record {
  provider_instance_id = p.provider_instance_id;
  provider_key = p.provider_key;
  config = p.config;
  lease_until = now + seconds r.lease_seconds;
}

unfoldable pub lease_providers :
    LeaseRequest → Time → List ProviderInstance → Action Database (List ProviderLease)
lease_providers r now [] = pure []
lease_providers r now (p ∷ ps) = do
  modify (lease_provider r now p)
  rest ← lease_providers r now ps
  pure (provider_lease r now p ∷ rest)

unfoldable pub claim_due_providers :
    (String → Bool) → LeaseRequest → Time → Action Database (List ProviderLease)
claim_due_providers locked r now = do
  rows ← gets (due_provider_statement locked r.limit now)
  lease_providers r now rows

abbrev pub is_owned : Option String → String → Bool
is_owned none owner = false
is_owned (some o) owner = o == owner

abbrev pub release_checkpoint : Option ProviderCheckpoint → String → Action Database Bool
release_checkpoint none owner db = (ok false, db)
release_checkpoint (some c) owner db =
    if is_owned c.lease_owner owner
    then (
      ok true,
      record db {
        checkpoints =
            put checkpoint_key (record c { lease_owner = none; lease_until = none }) db.checkpoints;
      },
    )
    else (ok false, db)

unfoldable pub release_provider_lease : String → String → Action Database Bool
release_provider_lease id owner = do
  checkpoint ← gets (λ db. get checkpoint_key id db.checkpoints)
  release_checkpoint checkpoint owner
