-- ===== src/Publication.antt =====
-- src/eventserver/core/publication.py: an event becomes an occurrence and one delivery for each
-- matching recipient. `matches` is the pattern engine, `repr` is `str(..)`, `uuids` are the values of
-- `uuid4()`, `now` is the time of the flush, which the column defaults take. `others` are the
-- occurrences that other transactions commit between the first look-up and the insertion.
pub mod Deliver
pub mod Dedupe
pub mod Insert
use hermes_event_server.Base.{
  ℕ, zero, suc, ◌+◌, ◌-◌, ◌*◌, ◌/◌, ◌%◌, ◌^◌, ◌≤◌, ◌<◌, min, max, String, ◌≡◌, refl, sym, ap, subst,
  ◌∙◌, ◌≢◌, ◌↔◌, ◌⊎◌, inl, inr, Bool, true, false, not, ◌&&◌, ◌||◌, Option, none, some, List, [],
  ◌∷◌, ◌++◌, map, arith, All, is_some, get_or, ltb, leb, nat_beq, if◌then◌else◌, ltb→lt, leb→le,
  Bool-cases, Option-cases, take, select, any, insert_by, sort_by, length, length-append,
  length-take-le, All-take, All-append, All-select, All-select_of, All-insert_by, All-sort_by,
  All-map2,
}
use hermes_event_server.Base.Equality.{
  Eq, ◌==◌, contains, string_eq, nat_eq, pair_eq, string_discrete,
}
use hermes_event_server.Base.Table.{
  get, put, delete, get-put, get-put_self, get-put_ne, get-delete, get_absent, key-get, IsKeyed,
  Found, put-IsKeyed, delete-IsKeyed, select-IsKeyed, take-IsKeyed, sort_by-IsKeyed, rows-Found,
  All-put, All-get, All-delete,
}
use hermes_event_server.Base.Action.{
  Error, lease_conflict_error, authorization_error, last_admin_error, value_error,
  event_not_found_error, match_key_error, invalid_match_key_error, publication_error,
  pairing_code_error, first_admin_bootstrap_error, lookup_error, key_error, runtime_error,
  integrity_error, Result, ok, err, Action, pure, raise, lift, gets, or_raise, modify, raise_if,
  ◌>>=◌, ◌>>◌,
}
use hermes_event_server.Json.{
  Json, Items, Fields, null, bool, int, float, str, list, dict, nil, cons, end, field, get_field,
  has_field, item_list, count_items, keys, str_items, optional_str, number_lt, number_eq, as_number,
}
use hermes_event_server.Models.{
  Time, seconds, Role, user, admin, AccountStatus, active, blocked, User, UserPermission, EventType,
  EventPublisher, EventAlias, ProviderInstance, ProviderCheckpoint, ObservationRecord,
  EventOccurrence, Subscription, DeliveryStatus, pending, leased, retry, sent, dead, Delivery,
  PairingCode, AuditLog, Observation, DomainEvent, DeliveryMessage, model_dump, Database,
  empty_database, user_key, permission_key, event_type_key, alias_key, instance_key, checkpoint_key,
  subscription_key, delivery_key, pairing_key, publisher_key,
}
use hermes_event_server.MatchKeys.{recipient_matches}
use hermes_event_server.Schema.{Verdict, accepted, validate_payload, missing, refused, crashed}
use hermes_event_server.Users.{has_permission, is_active}

pub record PublicationResult : Type 0 where
  pub event_id : String
  pub created : Bool
  pub deliveries_created : ℕ

-- The code and the environment of one publication.
pub record Context : Type 0 where
  pub matches : String → String → Option Bool
  pub repr : Json → String
  pub uuids : ℕ → String
  pub now : Time
  pub others : List EventOccurrence

abbrev pub Messages : Type 0
Messages = List (String × DeliveryMessage)

-- `messages.get(locale)`
unfoldable pub message_for : String → Messages → Option DeliveryMessage
message_for locale [] = none
message_for locale ((k, m) ∷ rest) = if k == locale then some m else message_for locale rest

abbrev pub same_event : String → String → EventOccurrence → Bool
same_event key dedupe o = (o.event_key == key) && (o.dedupe_key == dedupe)

-- `session.scalar(select(EventOccurrence).where(..))`
unfoldable pub find_occurrence : String → String → List EventOccurrence → Option EventOccurrence
find_occurrence key dedupe [] = none
find_occurrence key dedupe (o ∷ os) =
    if same_event key dedupe o then some o else find_occurrence key dedupe os

abbrev pub occurrence_of : DomainEvent → EventOccurrence
occurrence_of event = record {
  event_id = event.event_id;
  event_key = event.event_key;
  schema_version = event.schema_version;
  dedupe_key = event.dedupe_key;
  occurred_at = event.occurred_at;
  subject = event.subject;
  payload = event.payload;
  metadata_json = event.metadata;
}

-- An IntegrityError: the primary key or `uq_event_dedupe` is taken.
unfoldable pub occurrence_taken : DomainEvent → List EventOccurrence → Bool
occurrence_taken event os =
    any (λ o. (o.event_id == event.event_id) || same_event event.event_key event.dedupe_key o) os

abbrev pub is_active_user : Option User → Bool
is_active_user none = false
is_active_user (some u) = is_active u.account_status

-- The joins with `users` and `user_permissions`, which are on primary keys.
unfoldable pub is_recipient : String → List User → List UserPermission → Subscription → Bool
is_recipient event_key users permissions s =
    (s.event_key == event_key)
    && (is_active_user (get user_key (s.platform, s.openid) users)
        && has_permission permissions (s.platform, s.openid) "command")

abbrev pub recipients : DomainEvent → Database → List Subscription
recipients event db = select (is_recipient event.event_key db.users db.permissions) db.subscriptions

unfoldable pub delivery_for :
    Context → DomainEvent → DeliveryMessage → Time → ℕ → Subscription → Delivery
delivery_for c event message due i s = record {
  delivery_id = c.uuids i;
  event_id = event.event_id;
  event_key = event.event_key;
  platform = s.platform;
  openid = s.openid;
  message = model_dump message;
  status = pending;
  attempts = 0;
  next_attempt_at = due;
  lease_owner = none;
  lease_token_hash = none;
  lease_until = none;
  sent_at = none;
  platform_message_id = none;
  last_error_code = none;
  created_at = c.now;
}

abbrev pub or_default : Option DeliveryMessage → DeliveryMessage → DeliveryMessage
or_default none d = d
or_default (some m) d = m

-- The loop over the recipients; i deliveries have been made.
unfoldable pub deliver :
    Context
    → EventType
    → DomainEvent
    → Messages
    → DeliveryMessage
    → Time
    → ℕ
    → List Subscription
    → List Delivery
deliver c event_type event messages default due i [] = []
deliver c event_type event messages default due i (s ∷ ss) =
    let reached = recipient_matches c.repr event_type.match_key_field event.payload s.match_keys in
    let rest = deliver c event_type event messages default due (if reached then suc i else i) ss in
    if reached
    then delivery_for c event (or_default (message_for s.locale messages) default) due i s ∷ rest
    else rest

-- The flush: an IntegrityError if the primary key or `uq_delivery_target` is taken.
abbrev pub clashes : Delivery → Delivery → Bool
clashes d x =
    (x.delivery_id == d.delivery_id)
    || ((x.event_id == d.event_id) && ((x.platform == d.platform) && (x.openid == d.openid)))

unfoldable pub insert_deliveries : List Delivery → List Delivery → Option (List Delivery)
insert_deliveries [] table = some table
insert_deliveries (d ∷ ds) table =
    let rest = insert_deliveries ds (table ++ d ∷ []) in
    if any (clashes d) table then none else rest

abbrev pub check_payload : Verdict → Action Database (Unit {0})
check_payload accepted = pure tt
check_payload missing = raise publication_error
check_payload refused = raise publication_error
check_payload crashed = raise runtime_error

-- After the insertion: the deliveries.
unfoldable pub notify :
    Context
    → EventType
    → DomainEvent
    → Messages
    → DeliveryMessage
    → Option Time
    → Action Database PublicationResult
notify c event_type event messages default next_attempt_at db =
    let made =
      deliver c event_type event messages default (get_or next_attempt_at c.now) 0
        (recipients event db) in
    elim (insert_deliveries made db.deliveries) [
      | none ↦ (err integrity_error, db)
      | some table ↦ (
        ok (record { event_id = event.event_id; created = true; deliveries_created = length made }),
        record db { deliveries = table },
      )
    ]

abbrev pub duplicate_of : EventOccurrence → PublicationResult
duplicate_of o = record { event_id = o.event_id; created = false; deliveries_created = 0 }

-- The insertion in its savepoint, and the second look-up after an IntegrityError.
unfoldable pub insert_occurrence :
    Context
    → EventType
    → DomainEvent
    → Messages
    → DeliveryMessage
    → Option Time
    → Action Database PublicationResult
insert_occurrence c event_type event messages default next_attempt_at db =
    let os = c.others ++ db.occurrences in
    if occurrence_taken event os
    then elim (find_occurrence event.event_key event.dedupe_key os) [
      | none ↦ (err integrity_error, record db { occurrences = os })
      | some o ↦ (ok (duplicate_of o), record db { occurrences = os })
    ]
    else notify c event_type event messages default next_attempt_at
        (record db { occurrences = os ++ occurrence_of event ∷ [] })

abbrev pub unless_published :
    Option EventOccurrence → Action Database PublicationResult → Action Database PublicationResult
unless_published none insertion = insertion
unless_published (some o) insertion = pure (duplicate_of o)

-- The part after the checks.
unfoldable pub publish_checked :
    Context
    → EventType
    → DomainEvent
    → Messages
    → DeliveryMessage
    → Option Time
    → Action Database PublicationResult
publish_checked c event_type event messages default next_attempt_at = do
  existing ← gets (λ db. find_occurrence event.event_key event.dedupe_key db.occurrences)
  unless_published existing (insert_occurrence c event_type event messages default next_attempt_at)

abbrev pub enabled_type : Option EventType → Option EventType
enabled_type none = none
enabled_type (some t) = if t.enabled then some t else none

unfoldable pub publish :
    Context → DomainEvent → Messages → Option Time → Action Database PublicationResult
publish c event messages next_attempt_at = do
  found ← gets (λ db. get event_type_key event.event_key db.event_types)
  event_type ← or_raise (enabled_type found) publication_error
  raise_if (not (nat_beq event_type.schema_version event.schema_version)) publication_error
  check_payload (validate_payload c.matches event_type.payload_schema event.payload)
  default ← or_raise (message_for "default" messages) publication_error
  publish_checked c event_type event messages default next_attempt_at
