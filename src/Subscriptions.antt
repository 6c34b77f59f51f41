-- ===== src/Subscriptions.antt =====
-- src/eventserver/services/subscriptions.py: who is subscribed to which event, and with which match
-- keys.
pub mod Subscribe
pub mod Effect
pub mod Unsubscribe
use hermes_event_server.Base.{
  ℕ, zero, suc, ◌+◌, ◌-◌, ◌*◌, ◌/◌, ◌%◌, ◌^◌, ◌≤◌, ◌<◌, min, max, String, ◌≡◌, refl, sym, ap, subst,
  ◌∙◌, ◌≢◌, ◌↔◌, ◌⊎◌, inl, inr, Bool, true, false, not, ◌&&◌, ◌||◌, Option, none, some, List, [],
  ◌∷◌, ◌++◌, map, arith, All, is_some, get_or, ltb, leb, nat_beq, if◌then◌else◌, ltb→lt, leb→le,
  Bool-cases, Option-cases, take, select, any, insert_by, sort_by, length, length-append,
  length-take-le, All-take, All-append, All-select, All-select_of, All-insert_by, All-sort_by,
  All-map2,
}
use hermes_event_server.Base.Equality.{
  Eq, ◌==◌, contains, string_eq, nat_eq, pair_eq, string_discrete, distinct,
}
use hermes_event_server.Base.Table.{
  get, put, delete, get-put, get-put_self, get-put_ne, get-delete, get_absent, key-get, IsKeyed,
  Found, put-IsKeyed, delete-IsKeyed, select-IsKeyed, take-IsKeyed, sort_by-IsKeyed, rows-Found,
  All-put, All-get, All-delete,
}
use hermes_event_server.Base.Action.{
  Error, lease_conflict_error, authorization_error, last_admin_error, value_error,
  event_not_found_error, match_key_error, invalid_match_key_error, publication_error,
  pairing_code_error, first_admin_bootstrap_error, lookup_error, key_error, runtime_error,
  integrity_error, Result, ok, err, Action, pure, raise, lift, gets, or_raise, modify, raise_if,
  ◌>>=◌, ◌>>◌,
}
use hermes_event_server.Json.{
  Json, Items, Fields, null, bool, int, float, str, list, dict, nil, cons, end, field, get_field,
  has_field, item_list, count_items, keys, str_items, optional_str, number_lt, number_eq, as_number,
}
use hermes_event_server.Models.{
  Time, seconds, Role, user, admin, AccountStatus, active, blocked, User, UserPermission, EventType,
  EventPublisher, EventAlias, ProviderInstance, ProviderCheckpoint, ObservationRecord,
  EventOccurrence, Subscription, DeliveryStatus, pending, leased, retry, sent, dead, Delivery,
  PairingCode, AuditLog, Observation, DomainEvent, DeliveryMessage, model_dump, Database,
  empty_database, user_key, permission_key, event_type_key, alias_key, instance_key, checkpoint_key,
  subscription_key, delivery_key, pairing_key, publisher_key,
}
use hermes_event_server.MatchKeys.{
  normalize_match_keys, ensure_match_keys_allowed, allowed_match_keys, follows_all,
}
use hermes_event_server.Users.{PermissionSnapshot, permission_snapshot, is_active_status}
use hermes_event_server.Base.Text.{text_le}

-- `alias.event_key if alias`
abbrev pub alias_target : Option EventAlias → List EventType → Option EventType
alias_target none types = none
alias_target (some a) types = get event_type_key a.event_key types

-- An event type under its own key or else under an alias.
abbrev pub type_or_alias : Option EventType → Option EventAlias → List EventType → Option EventType
type_or_alias (some t) a types = some t
type_or_alias none a types = alias_target a types

abbrev pub available : Option EventType → Option EventType
available none = none
available (some t) = if t.enabled && t.subscribable then some t else none

unfoldable pub find_event : String → Database → Option EventType
find_event event_key db = available (
    type_or_alias (get event_type_key event_key db.event_types) (get alias_key event_key db.aliases)
      db.event_types)

unfoldable pub resolve_event : String → Action Database EventType
resolve_event event_key = do
  found ← gets (find_event event_key)
  or_raise found event_not_found_error

abbrev pub is_of_user : String → String → Subscription → Bool
is_of_user platform openid s = (s.platform == platform) && (s.openid == openid)

unfoldable pub list_subscriptions : String → String → Database → List Subscription
list_subscriptions platform openid db =
    sort_by (λ a b. text_le a.event_key b.event_key)
      (select (is_of_user platform openid) db.subscriptions)

abbrev pub may_subscribe : PermissionSnapshot → Bool
may_subscribe s = is_active_status s.account_status && s.command

unfoldable pub require_command : String → String → Action Database (Unit {0})
require_command platform openid = do
  snapshot ← gets (permission_snapshot platform openid)
  raise_if (not (may_subscribe snapshot)) authorization_error

-- The normalized match keys, with every key among the event's options.
abbrev pub allowed_keys : Result (List String) → List String → Result (List String)
allowed_keys (err e) allowed = err invalid_match_key_error
allowed_keys (ok ks) allowed = elim (ensure_match_keys_allowed ks allowed) [
  | ok u ↦ ok ks
  | err e ↦ err invalid_match_key_error
]

unfoldable pub requested_keys : EventType → Option (List String) → Result (List String)
requested_keys event match_keys =
    allowed_keys (normalize_match_keys match_keys) (allowed_match_keys event.match_key_options)

abbrev pub same_keys : List String → List String → Bool
same_keys [] [] = true
same_keys [] (k ∷ ks) = false
same_keys (j ∷ js) [] = false
same_keys (j ∷ js) (k ∷ ks) = (j == k) && same_keys js ks

-- The column default of `locale`.
abbrev pub new_subscription : String → String → String → List String → Subscription
new_subscription platform openid event_key match_keys = record {
  platform = platform;
  openid = openid;
  event_key = event_key;
  locale = "zh-CN";
  match_keys = match_keys;
}

abbrev pub save_subscription : Subscription → Database → Database
save_subscription s db = record db { subscriptions = put subscription_key s db.subscriptions }

-- What `subscribe` returns: the row, whether it is new, and whether its match keys changed.
pub record Subscribed : Type 0 where
  pub item : Subscription
  pub created : Bool
  pub updated : Bool

abbrev pub subscribe_row :
    Option Subscription → String → String → String → List String → Action Database Subscribed
subscribe_row none platform openid event_key requested db =
    let item = new_subscription platform openid event_key requested in
    (ok (record { item = item; created = true; updated = false }), save_subscription item db)
subscribe_row (some existing) platform openid event_key requested db =
    let item = record existing { match_keys = requested } in
    (
      ok (record {
        item = item;
        created = false;
        updated = not (same_keys existing.match_keys requested);
      }),
      save_subscription item db,
    )

unfoldable pub subscribe :
    String → String → String → Option (List String) → Action Database Subscribed
subscribe platform openid event_key match_keys = do
  require_command platform openid
  event ← resolve_event event_key
  requested ← lift (requested_keys event match_keys)
  raise_if (event.match_keys_required && follows_all requested) invalid_match_key_error
  existing ←
      gets (λ db. get subscription_key ((platform, openid), event.event_key) db.subscriptions)
  subscribe_row existing platform openid event.event_key requested

-- The canonical key, or the given one where no event is available under it.
abbrev pub canonical_key : Option EventType → String → String
canonical_key none event_key = event_key
canonical_key (some t) event_key = t.event_key

abbrev pub unsubscribe_row : Option Subscription → Action Database Bool
unsubscribe_row none db = (ok false, db)
unsubscribe_row (some s) db = (
  ok true,
  record db { subscriptions = delete subscription_key (subscription_key s) db.subscriptions },
)

unfoldable pub unsubscribe : String → String → String → Action Database Bool
unsubscribe platform openid event_key = do
  require_command platform openid
  canonical ← gets (λ db. canonical_key (find_event event_key db) event_key)
  existing ← gets (λ db. get subscription_key ((platform, openid), canonical) db.subscriptions)
  unsubscribe_row existing
