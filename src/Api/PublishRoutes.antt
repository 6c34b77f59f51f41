-- ===== src/Api/PublishRoutes.antt =====
-- src/eventserver/api/publish.py and `resolve_notify_at` of api/helpers.py: an external publisher sends
-- an event. `isoformat` is `datetime.isoformat`, `now` the time of the check of `notify_at`.
pub mod Outcome
use hermes_event_server.Base.{
  ℕ, zero, suc, ◌+◌, ◌-◌, ◌*◌, ◌/◌, ◌%◌, ◌^◌, ◌≤◌, ◌<◌, min, max, String, ◌≡◌, refl, sym, ap, subst,
  ◌∙◌, ◌≢◌, ◌↔◌, ◌⊎◌, inl, inr, Bool, true, false, not, ◌&&◌, ◌||◌, Option, none, some, List, [],
  ◌∷◌, ◌++◌, map, arith, All, is_some, get_or, ltb, leb, nat_beq, if◌then◌else◌, ltb→lt, leb→le,
  Bool-cases, Option-cases, take, select, any, insert_by, sort_by, length, length-append,
  length-map, length-take-le, All-take, All-append, All-select, All-select_of, All-insert_by,
  All-sort_by, All-map2,
}
use hermes_event_server.Base.Equality.{
  Eq, ◌==◌, contains, string_eq, nat_eq, pair_eq, string_discrete, distinct,
}
use hermes_event_server.Base.Table.{
  get, put, delete, get-put, get-put_self, get-put_ne, get-put_at, put-put, get-delete, get_absent,
  key-get, IsKeyed, Found, put-IsKeyed, delete-IsKeyed, select-IsKeyed, take-IsKeyed,
  sort_by-IsKeyed, rows-Found, All-put, All-get, All-delete,
}
use hermes_event_server.Base.Action.{
  Error, lease_conflict_error, authorization_error, last_admin_error, value_error,
  event_not_found_error, match_key_error, invalid_match_key_error, publication_error,
  pairing_code_error, first_admin_bootstrap_error, lookup_error, key_error, runtime_error,
  integrity_error, Result, Result-cases, ok, err, Action, pure, raise, lift, gets, or_raise, modify,
  raise_if, ◌>>=◌, ◌>>◌,
}
use hermes_event_server.Json.{
  Json, Items, Fields, null, bool, int, float, str, list, dict, nil, cons, end, field, get_field,
  has_field, item_list, count_items, keys, str_items, optional_str, number_lt, number_eq, as_number,
}
use hermes_event_server.Models.{
  Time, seconds, Role, user, admin, AccountStatus, active, blocked, User, UserPermission, EventType,
  EventPublisher, EventAlias, ProviderInstance, ProviderCheckpoint, ObservationRecord,
  EventOccurrence, Subscription, DeliveryStatus, pending, leased, retry, sent, dead, Delivery,
  PairingCode, AuditLog, Observation, DomainEvent, DeliveryMessage, model_dump, Database,
  empty_database, user_key, permission_key, event_type_key, alias_key, instance_key, checkpoint_key,
  subscription_key, delivery_key, pairing_key, publisher_key,
}
use hermes_event_server.Base.Int.{pos}
use hermes_event_server.Base.Text.{text_length, text_take}
use hermes_event_server.Users.{mask_identifier, add_audit}
use hermes_event_server.Publication.{Context, Messages, PublicationResult, publish}
use hermes_event_server.Api.{Reply, reply, http_exception, uncaught, raised, close, handle}

-- `s.startswith(prefix)`
abbrev pub starts_with : String → String → Bool
starts_with s prefix = text_take (text_length prefix) s == prefix

-- `{**d, k: v}`
abbrev pub set_field : String → Json → Fields → Fields
set_field k v end = field k v end
set_field k v (field j w rest) = if j == k then field j v rest else field j w (set_field k v rest)

unfoldable pub resolve_notify_at : Option Time → Time → ℕ → Option (Option Time)
resolve_notify_at none now horizon = some none
resolve_notify_at (some value) now horizon =
    if leb value now
    then some (some now)
    else if ltb (now + seconds horizon) value
    then none
    else some (some value)

pub record PublishEventRequest : Type 0 where
  pub event_key : String
  pub schema_version : ℕ
  pub dedupe_key : String
  pub occurred_at : Time
  pub notify_at : Option Time
  pub subject : Fields
  pub payload : Fields
  pub metadata : Fields
  pub messages : Messages

pub record PublishEventResponse : Type 0 where
  pub event_id : String
  pub created : Bool
  pub deliveries_created : ℕ
  pub notify_at : Option Time

abbrev pub event_of : PublishEventRequest → String → String → DomainEvent
event_of body event_id publisher_key = record {
  event_id = event_id;
  event_key = body.event_key;
  schema_version = body.schema_version;
  dedupe_key = body.dedupe_key;
  occurred_at = body.occurred_at;
  subject = body.subject;
  payload = body.payload;
  metadata = set_field "publisher_key" (str publisher_key) body.metadata;
}

abbrev pub notify_text : (Time → String) → Option Time → Json
notify_text isoformat none = null
notify_text isoformat (some t) = str (isoformat t)

abbrev pub publish_entry :
    (Time → String) → String → String → String → Option Time → PublicationResult → AuditLog
publish_entry isoformat publisher_key event_key request_id notify_at result = record {
  actor_platform = none;
  actor_openid_masked = none;
  target_type = "event_occurrence";
  target_id_masked = mask_identifier (some result.event_id);
  action = "publisher_publish";
  result = (if result.created then "created" else "duplicate");
  request_id = some request_id;
  details = field "publisher_key" (str publisher_key) (
      field "event_key" (str event_key) (
        field "deliveries_created" (int (pos result.deliveries_created))
          (field "notify_at" (notify_text isoformat notify_at) end)));
}

abbrev pub response_of : PublicationResult → Option Time → PublishEventResponse
response_of result notify_at = record {
  event_id = result.event_id;
  created = result.created;
  deliveries_created = result.deliveries_created;
  notify_at = notify_at;
}

abbrev pub publish_errors : Error → Option ℕ
publish_errors publication_error = some 422
publish_errors _ = none

abbrev pub may_publish : EventPublisher → String → Bool
may_publish publisher event_key = any (starts_with event_key) publisher.allowed_event_prefixes

module _ (isoformat : Time → String) (horizon : ℕ) where
  -- The publication and its audit entry.
  unfoldable pub publish_audited :
      Context
      → EventPublisher
      → PublishEventRequest
      → String
      → String
      → Option Time
      → Action Database PublishEventResponse
  publish_audited c publisher body event_id request_id notify_at = do
    result ← publish c (event_of body event_id publisher.publisher_key) body.messages notify_at
    add_audit
        (publish_entry isoformat publisher.publisher_key body.event_key request_id notify_at result)
    pure (response_of result notify_at)

  abbrev pub publish_at :
      Option (Option Time)
      → Context
      → EventPublisher
      → PublishEventRequest
      → String
      → String
      → Database
      → Reply PublishEventResponse × Database
  publish_at none c publisher body event_id request_id db = (http_exception 422, db)
  publish_at (some notify_at) c publisher body event_id request_id db =
      handle publish_errors (publish_audited c publisher body event_id request_id notify_at) db

  unfoldable pub publish_event :
      Context
      → EventPublisher
      → PublishEventRequest
      → String
      → String
      → Time
      → Database
      → Reply PublishEventResponse × Database
  publish_event c publisher body event_id request_id now db =
      if may_publish publisher body.event_key
      then publish_at (resolve_notify_at body.notify_at now horizon) c publisher body event_id
          request_id db
      else (http_exception 403, db)
