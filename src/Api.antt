-- ===== src/Api.antt =====
-- src/eventserver/api: the HTTP handlers. A handler commits the session if its operations return, and
-- is rolled back by the closing of the session if one raises. Routing, the request models and the JSON
-- of the responses belong to the web framework.
pub mod UserRoutes
pub mod DeliveryRoutes
pub mod PublishRoutes
pub mod SubscriptionRoutes
pub mod PairingRoutes
use hermes_event_server.Base.{
  ℕ, zero, suc, ◌+◌, ◌-◌, ◌*◌, ◌/◌, ◌%◌, ◌^◌, ◌≤◌, ◌<◌, min, max, String, ◌≡◌, refl, sym, ap, subst,
  ◌∙◌, ◌≢◌, ◌↔◌, ◌⊎◌, inl, inr, Bool, true, false, not, ◌&&◌, ◌||◌, Option, none, some, List, [],
  ◌∷◌, ◌++◌, map, arith, All, is_some, get_or, ltb, leb, nat_beq, if◌then◌else◌, ltb→lt, leb→le,
  Bool-cases, Option-cases, take, select, any, insert_by, sort_by, length, length-append,
  length-map, length-take-le, All-take, All-append, All-select, All-select_of, All-insert_by,
  All-sort_by, All-map2,
}
use hermes_event_server.Base.Equality.{
  Eq, ◌==◌, contains, string_eq, nat_eq, pair_eq, string_discrete, distinct,
}
use hermes_event_server.Base.Table.{
  get, put, delete, get-put, get-put_self, get-put_ne, get-put_at, put-put, get-delete, get_absent,
  key-get, IsKeyed, Found, put-IsKeyed, delete-IsKeyed, select-IsKeyed, take-IsKeyed,
  sort_by-IsKeyed, rows-Found, All-put, All-get, All-delete,
}
use hermes_event_server.Base.Action.{
  Error, lease_conflict_error, authorization_error, last_admin_error, value_error,
  event_not_found_error, match_key_error, invalid_match_key_error, publication_error,
  pairing_code_error, first_admin_bootstrap_error, lookup_error, key_error, runtime_error,
  integrity_error, Result, Result-cases, ok, err, Action, pure, raise, lift, gets, or_raise, modify,
  raise_if, ◌>>=◌, ◌>>◌,
}
use hermes_event_server.Json.{
  Json, Items, Fields, null, bool, int, float, str, list, dict, nil, cons, end, field, get_field,
  has_field, item_list, count_items, keys, str_items, optional_str, number_lt, number_eq, as_number,
}
use hermes_event_server.Models.{
  Time, seconds, Role, user, admin, AccountStatus, active, blocked, User, UserPermission, EventType,
  EventPublisher, EventAlias, ProviderInstance, ProviderCheckpoint, ObservationRecord,
  EventOccurrence, Subscription, DeliveryStatus, pending, leased, retry, sent, dead, Delivery,
  PairingCode, AuditLog, Observation, DomainEvent, DeliveryMessage, model_dump, Database,
  empty_database, user_key, permission_key, event_type_key, alias_key, instance_key, checkpoint_key,
  subscription_key, delivery_key, pairing_key, publisher_key,
}

-- A response, an HTTPException with its status, or an exception that no handler catches.
pub data Reply {ℓ} (A : Type ℓ) : Type ℓ where
  reply : A → Reply A
  http_exception : ℕ → Reply A
  uncaught : Error → Reply A

-- `status` is the status code of an exception that the handler catches.
abbrev pub raised : {A : Type 0} → Option ℕ → Error → Reply A
raised none e = uncaught e
raised (some code) e = http_exception code

module _ {S A : Type 0} where
  abbrev pub close : (Error → Option ℕ) → Result A × S → S → Reply A × S
  close status (ok a, s') s = (reply a, s')
  close status (err e, s') s = (raised (status e) e, s)

  unfoldable pub handle : (Error → Option ℕ) → Action S A → S → Reply A × S
  handle status m s = close status (m s) s
