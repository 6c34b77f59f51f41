-- ===== src/Bootstrap.antt =====
-- src/eventserver/bootstrap.py: what a deployment does to the database before the server starts.
pub mod Effect
use hermes_event_server.Base.{
  ℕ, zero, suc, ◌+◌, ◌-◌, ◌*◌, ◌/◌, ◌%◌, ◌^◌, ◌≤◌, ◌<◌, min, max, String, ◌≡◌, refl, sym, ap, subst,
  ◌∙◌, ◌≢◌, ◌↔◌, ◌⊎◌, inl, inr, Bool, true, false, not, ◌&&◌, ◌||◌, Option, none, some, List, [],
  ◌∷◌, ◌++◌, map, arith, All, is_some, get_or, ltb, leb, nat_beq, if◌then◌else◌, ltb→lt, leb→le,
  Bool-cases, Option-cases, take, select, any, insert_by, sort_by, length, length-append,
  length-map, length-take-le, All-take, All-append, All-select, All-select_of, All-insert_by,
  All-sort_by, All-map2,
}
use hermes_event_server.Base.Equality.{
  Eq, ◌==◌, contains, string_eq, nat_eq, pair_eq, string_discrete, distinct,
}
use hermes_event_server.Base.Table.{
  get, put, delete, get-put, get-put_self, get-put_ne, get-put_at, put-put, get-delete, get_absent,
  key-get, IsKeyed, Found, put-IsKeyed, delete-IsKeyed, select-IsKeyed, take-IsKeyed,
  sort_by-IsKeyed, rows-Found, All-put, All-get, All-delete,
}
use hermes_event_server.Base.Action.{
  Error, lease_conflict_error, authorization_error, last_admin_error, value_error,
  event_not_found_error, match_key_error, invalid_match_key_error, publication_error,
  pairing_code_error, first_admin_bootstrap_error, lookup_error, key_error, runtime_error,
  integrity_error, Result, Result-cases, ok, err, Action, pure, raise, lift, gets, or_raise, modify,
  raise_if, ◌>>=◌, ◌>>◌,
}
use hermes_event_server.Json.{
  Json, Items, Fields, null, bool, int, float, str, list, dict, nil, cons, end, field, get_field,
  has_field, item_list, count_items, keys, str_items, optional_str, number_lt, number_eq, as_number,
}
use hermes_event_server.Models.{
  Time, seconds, Role, user, admin, AccountStatus, active, blocked, User, UserPermission, EventType,
  EventPublisher, EventAlias, ProviderInstance, ProviderCheckpoint, ObservationRecord,
  EventOccurrence, Subscription, DeliveryStatus, pending, leased, retry, sent, dead, Delivery,
  PairingCode, AuditLog, Observation, DomainEvent, DeliveryMessage, model_dump, Database,
  empty_database, user_key, permission_key, event_type_key, alias_key, instance_key, checkpoint_key,
  subscription_key, delivery_key, pairing_key, publisher_key,
}
use hermes_event_server.Users.{has_permission}
use hermes_event_server.FirstAdmin.{make_admin}

abbrev pub legacy_event_keys : List String
legacy_event_keys =
    "warframe.cetus.night" ∷ "warframe.konzu.rotation" ∷ "warframe.ghoul.started" ∷ []

abbrev pub legacy_provider_keys : List String
legacy_provider_keys =
    "warframe.cetus_night" ∷ "warframe.konzu_rotation" ∷ "warframe.ghoul_event" ∷ []

abbrev pub or_now : Option Time → Time → Option Time
or_now none now = some now
or_now (some t) now = some t

abbrev pub retired : Time → EventType → EventType
retired now t = record t { enabled = false; deprecated_at = or_now t.deprecated_at now }

abbrev pub retire_row : Option EventType → Time → List EventType → List EventType
retire_row none now types = types
retire_row (some t) now types = put event_type_key (retired now t) types

unfoldable pub retire_events : List String → Time → List EventType → List EventType
retire_events [] now types = types
retire_events (k ∷ ks) now types =
    retire_events ks now (retire_row (get event_type_key k types) now types)

abbrev pub retire_provider : ProviderInstance → ProviderInstance
retire_provider p =
    if contains legacy_provider_keys p.provider_key then record p { enabled = false } else p

abbrev pub is_row : {A : Type 0} → Option A → Bool
is_row none = false
is_row (some a) = true

-- All three rows of an administrator are stored. A row that is only added to the session is not found
-- by `session.get`, since the session does not flush by itself.
abbrev pub is_stored : Database → String → Bool
is_stored db openid =
    is_row (get user_key ("qqbot", openid) db.users)
    && (is_row (get permission_key (("qqbot", openid), "chat") db.permissions)
        && is_row (get permission_key (("qqbot", openid), "command") db.permissions))

-- An openid that is named again before its rows are stored is added twice, and the commit fails.
unfoldable pub adds_twice : Database → List String → List String → Bool
adds_twice db seen [] = false
adds_twice db seen (openid ∷ rest) =
    (contains seen openid && not (is_stored db openid)) || adds_twice db (openid ∷ seen) rest

unfoldable pub make_admins : List String → Database → Database
make_admins [] db = db
make_admins (openid ∷ rest) db = make_admins rest (make_admin "qqbot" openid "bootstrap" db)

unfoldable pub bootstrap : List String → Time → Action Database (Unit {0})
bootstrap admin_openids now db =
    if adds_twice db [] admin_openids then (err integrity_error, db) else (
      ok tt,
      make_admins admin_openids (record db {
        event_types = retire_events legacy_event_keys now db.event_types;
        instances = map retire_provider db.instances;
      }),
    )
