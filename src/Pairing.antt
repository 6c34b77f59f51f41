-- ===== src/Pairing.antt =====
-- src/eventserver/services/pairing.py: one-time codes by which an administrator grants permissions.
-- `sha256` is the hex digest of a text, `upper` is `str.upper`, `choices i` is the i-th character that
-- `secrets.choice(ALPHABET)` draws, `now` is the time of the call.
pub mod Approve
pub mod Effect
pub mod Create
use hermes_event_server.Base.{
  ℕ, zero, suc, ◌+◌, ◌-◌, ◌*◌, ◌/◌, ◌%◌, ◌^◌, ◌≤◌, ◌<◌, min, max, String, ◌≡◌, refl, sym, ap, subst,
  ◌∙◌, ◌≢◌, ◌↔◌, ◌⊎◌, inl, inr, Bool, true, false, not, ◌&&◌, ◌||◌, Option, none, some, List, [],
  ◌∷◌, ◌++◌, map, arith, All, is_some, get_or, ltb, leb, nat_beq, if◌then◌else◌, ltb→lt, leb→le,
  Bool-cases, Option-cases, take, select, any, insert_by, sort_by, length, length-append,
  length-take-le, All-take, All-append, All-select, All-select_of, All-insert_by, All-sort_by,
  All-map2,
}
use hermes_event_server.Base.Equality.{
  Eq, ◌==◌, contains, string_eq, nat_eq, pair_eq, string_discrete, distinct,
}
use hermes_event_server.Base.Table.{
  get, put, delete, get-put, get-put_self, get-put_ne, put-put, get-delete, get_absent, key-get,
  IsKeyed, Found, put-IsKeyed, delete-IsKeyed, select-IsKeyed, take-IsKeyed, sort_by-IsKeyed,
  rows-Found, All-put, All-get, All-delete,
}
use hermes_event_server.Base.Action.{
  Error, lease_conflict_error, authorization_error, last_admin_error, value_error,
  event_not_found_error, match_key_error, invalid_match_key_error, publication_error,
  pairing_code_error, first_admin_bootstrap_error, lookup_error, key_error, runtime_error,
  integrity_error, Result, Result-cases, ok, err, Action, pure, raise, lift, gets, or_raise, modify,
  raise_if, ◌>>=◌, ◌>>◌,
}
use hermes_event_server.Json.{
  Json, Items, Fields, null, bool, int, float, str, list, dict, nil, cons, end, field, get_field,
  has_field, item_list, count_items, keys, str_items, optional_str, number_lt, number_eq, as_number,
}
use hermes_event_server.Models.{
  Time, seconds, Role, user, admin, AccountStatus, active, blocked, User, UserPermission, EventType,
  EventPublisher, EventAlias, ProviderInstance, ProviderCheckpoint, ObservationRecord,
  EventOccurrence, Subscription, DeliveryStatus, pending, leased, retry, sent, dead, Delivery,
  PairingCode, AuditLog, Observation, DomainEvent, DeliveryMessage, model_dump, Database,
  empty_database, user_key, permission_key, event_type_key, alias_key, instance_key, checkpoint_key,
  subscription_key, delivery_key, pairing_key, publisher_key,
}
use hermes_event_server.Users.{PermissionSnapshot, PermissionChange, require_admin, set_permissions}
use Prim.Native.String

abbrev pub alphabet : String
alphabet = "ABCDEFGHJKLMNPQRSTUVWXYZ23456789"

-- `"".join(.. for _ in range(n))`, from the i-th choice on
unfoldable pub drawn : (ℕ → String) → ℕ → ℕ → String
drawn choices zero i = ""
drawn choices (suc n) i = String.◌++◌ (choices i) (drawn choices n (suc i))

-- A code that is there for the platform.
abbrev pub code_for : String → Option PairingCode → Option PairingCode
code_for platform none = none
code_for platform (some row) = if row.platform == platform then some row else none

-- `row.consumed_at is not None or expires_at <= now`
abbrev pub is_spent : Time → PairingCode → Bool
is_spent now row = is_some row.consumed_at || leb row.expires_at now

abbrev pub consumed : String → Time → PairingCode → PairingCode
consumed by now row = record row {
  approved_by = some by;
  approved_at = some now;
  consumed_at = some now;
}

abbrev pub save_code : PairingCode → Action Database (Unit {0})
save_code row = modify (λ db. record db { pairing_codes = put pairing_key row db.pairing_codes })

-- The keyword arguments of `approve_pairing_code`.
pub record Approval : Type 0 where
  pub code : String
  pub permissions : List String
  pub operator_openid : String
  pub platform : String
  pub request_id : Option String

-- The grant to the user of a code.
abbrev pub grant_for : Approval → PairingCode → PermissionChange
grant_for r row = record {
  platform = r.platform;
  openid = row.openid;
  permissions = r.permissions;
  granted = true;
  operator_openid = r.operator_openid;
  request_id = r.request_id;
}

module _ (sha256 upper : String → String) where
  unfoldable pub pairing_code_hash : String → String
  pairing_code_hash code = sha256 (upper code)

  abbrev pub new_code : String → String → String → ℕ → Time → PairingCode
  new_code code platform openid ttl_minutes now = record {
    code_hash = pairing_code_hash code;
    platform = platform;
    openid = openid;
    expires_at = now + seconds (60 * ttl_minutes);
    approved_by = none;
    approved_at = none;
    consumed_at = none;
    failed_attempts = 0;
  }

  -- The flush raises an IntegrityError if the digest is taken.
  unfoldable pub create_pairing_code :
      (ℕ → String) → String → String → ℕ → Time → Action Database (String × PairingCode)
  create_pairing_code choices platform openid ttl_minutes now = do
    let code = drawn choices 8 0
    let row = new_code code platform openid ttl_minutes now
    taken ← gets (λ db. is_some (get pairing_key row.code_hash db.pairing_codes))
    raise_if taken integrity_error
    save_code row
    pure (code, row)

  unfoldable pub approve_pairing_code : Approval → Time → Action Database PermissionSnapshot
  approve_pairing_code r now = do
    require_admin r.platform r.operator_openid
    found ← gets (λ db. get pairing_key (pairing_code_hash r.code) db.pairing_codes)
    row ← or_raise (code_for r.platform found) pairing_code_error
    raise_if (is_spent now row) pairing_code_error
    snapshot ← set_permissions (grant_for r row)
    save_code (consumed r.operator_openid now row)
    pure snapshot
