-- ===== src/FirstAdmin.antt =====
-- src/eventserver/services/bootstrap_admin.py: a pairing code makes the first administrator of a
-- platform. `strip` is `str.strip`; the other parameters are those of the pairing codes.
pub mod Once
use hermes_event_server.Base.{
  ℕ, zero, suc, ◌+◌, ◌-◌, ◌*◌, ◌/◌, ◌%◌, ◌^◌, ◌≤◌, ◌<◌, min, max, String, ◌≡◌, refl, sym, ap, subst,
  ◌∙◌, ◌≢◌, ◌↔◌, ◌⊎◌, inl, inr, Bool, true, false, not, ◌&&◌, ◌||◌, Option, none, some, List, [],
  ◌∷◌, ◌++◌, map, arith, All, is_some, get_or, ltb, leb, nat_beq, if◌then◌else◌, ltb→lt, leb→le,
  Bool-cases, Option-cases, take, select, any, insert_by, sort_by, length, length-append,
  length-take-le, All-take, All-append, All-select, All-select_of, All-insert_by, All-sort_by,
  All-map2,
}
use hermes_event_server.Base.Equality.{
  Eq, ◌==◌, contains, string_eq, nat_eq, pair_eq, string_discrete, distinct,
}
use hermes_event_server.Base.Table.{
  get, put, delete, get-put, get-put_self, get-put_ne, put-put, get-delete, get_absent, key-get,
  IsKeyed, Found, put-IsKeyed, delete-IsKeyed, select-IsKeyed, take-IsKeyed, sort_by-IsKeyed,
  rows-Found, All-put, All-get, All-delete,
}
use hermes_event_server.Base.Action.{
  Error, lease_conflict_error, authorization_error, last_admin_error, value_error,
  event_not_found_error, match_key_error, invalid_match_key_error, publication_error,
  pairing_code_error, first_admin_bootstrap_error, lookup_error, key_error, runtime_error,
  integrity_error, Result, Result-cases, ok, err, Action, pure, raise, lift, gets, or_raise, modify,
  raise_if, ◌>>=◌, ◌>>◌,
}
use hermes_event_server.Json.{
  Json, Items, Fields, null, bool, int, float, str, list, dict, nil, cons, end, field, get_field,
  has_field, item_list, count_items, keys, str_items, optional_str, number_lt, number_eq, as_number,
}
use hermes_event_server.Models.{
  Time, seconds, Role, user, admin, AccountStatus, active, blocked, User, UserPermission, EventType,
  EventPublisher, EventAlias, ProviderInstance, ProviderCheckpoint, ObservationRecord,
  EventOccurrence, Subscription, DeliveryStatus, pending, leased, retry, sent, dead, Delivery,
  PairingCode, AuditLog, Observation, DomainEvent, DeliveryMessage, model_dump, Database,
  empty_database, user_key, permission_key, event_type_key, alias_key, instance_key, checkpoint_key,
  subscription_key, delivery_key, pairing_key, publisher_key,
}
use hermes_event_server.Users.{
  PermissionSnapshot, permission_snapshot, active_command_admin_count, or_new_user, set_rows,
  add_audit, mask_identifier,
}
use hermes_event_server.Pairing.{
  alphabet, code_for, is_spent, consumed, save_code, pairing_code_hash,
}
use hermes_event_server.Base.Text.{text_length}
use Prim.Native.String
use Prim.Native.Char.{Char, code}

abbrev pub has_char : Char → String → Bool
has_char c String.[] = false
has_char c (String.◌∷◌ d rest) = nat_beq (code d) (code c) || has_char c rest

-- `any(char not in ALPHABET for char in s)`
abbrev pub has_foreign_char : String → Bool
has_foreign_char String.[] = false
has_foreign_char (String.◌∷◌ c rest) = not (has_char c alphabet) || has_foreign_char rest

abbrev pub is_code : String → Bool
is_code s = nat_beq (text_length s) 8 && not (has_foreign_char s)

abbrev pub is_blocked_user : Option User → Bool
is_blocked_user none = false
is_blocked_user (some u) = elim u.account_status [ blocked ↦ true | active ↦ false ]

abbrev pub as_admin : User → User
as_admin u = record u { account_status = active; role = admin }

abbrev pub bootstrap_entry : String → String → AuditLog
bootstrap_entry platform openid = record {
  actor_platform = some "system";
  actor_openid_masked = none;
  target_type = "user";
  target_id_masked = mask_identifier (some openid);
  action = "bootstrap_first_admin";
  result = "success";
  request_id = none;
  details = field "platform" (str platform) (
      field "role" (str "admin") (
        field "permissions" (list (cons (str "chat") (cons (str "command") nil)))
          (field "source" (str "pairing_code") end)));
}

-- The user becomes an active admin with both permissions.
unfoldable pub make_admin : String → String → String → Database → Database
make_admin platform openid by db = record db {
  users =
      put user_key
        (as_admin (or_new_user (get user_key (platform, openid) db.users) platform openid))
        db.users;
  permissions = set_rows (platform, openid) true by ("chat" ∷ "command" ∷ []) db.permissions;
}

module _ (sha256 upper strip : String → String) where
  unfoldable pub bootstrap_first_admin : String → String → Time → Action Database PermissionSnapshot
  bootstrap_first_admin code platform now = do
    count ← gets (active_command_admin_count platform)
    raise_if (not (nat_beq count 0)) first_admin_bootstrap_error
    let normalized_code = upper (strip code)
    raise_if (not (is_code normalized_code)) first_admin_bootstrap_error
    found ←
        gets
          (λ db. get pairing_key (pairing_code_hash sha256 upper normalized_code) db.pairing_codes)
    row ← or_raise (code_for platform found) first_admin_bootstrap_error
    raise_if (is_spent now row) first_admin_bootstrap_error
    user_row ← gets (λ db. get user_key (platform, row.openid) db.users)
    raise_if (is_blocked_user user_row) first_admin_bootstrap_error
    modify (make_admin platform row.openid "bootstrap-pairing")
    save_code (consumed "bootstrap" now row)
    add_audit (bootstrap_entry platform row.openid)
    gets (permission_snapshot platform row.openid)
