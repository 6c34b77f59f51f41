-- ===== src/Users.antt =====
-- src/eventserver/services/users.py and common.py: permission snapshots, grants and revocations,
-- role changes, and the rule that the last active admin with command permission stays.
-- A raise leaves what the session has written so far; the request handlers roll it back.
pub mod Count
pub mod Admins
pub mod Roles
pub mod Effects
use hermes_event_server.Base.Text.{text_length, text_take, text_drop, text_le}
use hermes_event_server.Base.{
  ℕ, zero, suc, ◌+◌, ◌-◌, ◌*◌, ◌/◌, ◌%◌, ◌^◌, ◌≤◌, ◌<◌, min, max, String, ◌≡◌, refl, sym, ap, subst,
  ◌∙◌, ◌≢◌, ◌↔◌, ◌⊎◌, inl, inr, Bool, true, false, not, ◌&&◌, ◌||◌, Option, none, some, List, [],
  ◌∷◌, ◌++◌, map, arith, All, is_some, get_or, ltb, leb, nat_beq, if◌then◌else◌, ltb→lt, leb→le,
  Bool-cases, Option-cases, take, select, any, insert_by, sort_by, length, length-append,
  length-take-le, All-take, All-append, All-select, All-select_of, All-insert_by, All-sort_by,
  All-map2,
}
use hermes_event_server.Base.Equality.{
  Eq, ◌==◌, contains, string_eq, nat_eq, pair_eq, string_discrete,
}
use hermes_event_server.Base.Table.{
  get, put, delete, get-put, get-put_self, get-put_ne, get-delete, get_absent, key-get, IsKeyed,
  Found, put-IsKeyed, delete-IsKeyed, select-IsKeyed, take-IsKeyed, sort_by-IsKeyed, rows-Found,
  All-put, All-get, All-delete,
}
use hermes_event_server.Base.Action.{
  Error, lease_conflict_error, authorization_error, last_admin_error, value_error,
  event_not_found_error, match_key_error, invalid_match_key_error, publication_error,
  pairing_code_error, first_admin_bootstrap_error, lookup_error, key_error, runtime_error,
  integrity_error, Result, ok, err, Action, pure, raise, lift, gets, or_raise, modify, raise_if,
  ◌>>=◌, ◌>>◌,
}
use hermes_event_server.Json.{
  Json, Items, Fields, null, bool, int, float, str, list, dict, nil, cons, end, field, get_field,
  has_field, item_list, count_items, keys, str_items, optional_str, number_lt, number_eq, as_number,
}
use hermes_event_server.Models.{
  Time, seconds, Role, user, admin, AccountStatus, active, blocked, User, UserPermission, EventType,
  EventPublisher, EventAlias, ProviderInstance, ProviderCheckpoint, ObservationRecord,
  EventOccurrence, Subscription, DeliveryStatus, pending, leased, retry, sent, dead, Delivery,
  PairingCode, AuditLog, Observation, DomainEvent, DeliveryMessage, model_dump, Database,
  empty_database, user_key, permission_key, event_type_key, alias_key, instance_key, checkpoint_key,
  subscription_key, delivery_key, pairing_key, publisher_key,
}
use Prim.Native.String

-- `mask_identifier` of common.py
unfoldable pub mask_identifier : Option String → Option String
mask_identifier none = none
mask_identifier (some value) =
    if leb (text_length value) 6
    then some "***"
    else some (
        String.◌++◌ (text_take 3 value)
          (String.◌++◌ "***" (text_drop (text_length value - 3) value)))

abbrev pub valid_permissions : List String
valid_permissions = "chat" ∷ "command" ∷ []

-- `account_status` is `none` for "unknown".
pub record PermissionSnapshot : Type 0 where
  pub platform : String
  pub openid : String
  pub account_status : Option AccountStatus
  pub role : Role
  pub chat : Bool
  pub command : Bool

abbrev pub is_admin : Role → Bool
is_admin admin = true
is_admin user = false

abbrev pub is_active : AccountStatus → Bool
is_active active = true
is_active blocked = false

abbrev pub granted_of : Option UserPermission → Bool
granted_of none = false
granted_of (some p) = p.granted

-- The columns are the primary key, so at most one row is met.
unfoldable pub has_permission : List UserPermission → String × String → String → Bool
has_permission permissions target key = granted_of (get permission_key (target, key) permissions)

abbrev pub snapshot_of : Option User → String → String → List UserPermission → PermissionSnapshot
snapshot_of none platform openid permissions = record {
  platform = platform;
  openid = openid;
  account_status = none;
  role = user;
  chat = false;
  command = false;
}
snapshot_of (some u) platform openid permissions = record {
  platform = platform;
  openid = openid;
  account_status = some u.account_status;
  role = u.role;
  chat = has_permission permissions (platform, openid) "chat";
  command = has_permission permissions (platform, openid) "command";
}

unfoldable pub permission_snapshot : String → String → Database → PermissionSnapshot
permission_snapshot platform openid db =
    snapshot_of (get user_key (platform, openid) db.users) platform openid db.permissions

abbrev pub is_active_status : Option AccountStatus → Bool
is_active_status (some active) = true
is_active_status (some blocked) = false
is_active_status none = false

-- `account_status == "active" and role == "admin" and command`
abbrev pub may_administer : PermissionSnapshot → Bool
may_administer s = is_active_status s.account_status && (is_admin s.role && s.command)

unfoldable pub require_admin : String → String → Action Database (Option User)
require_admin platform operator_openid = do
  snapshot ← gets (permission_snapshot platform operator_openid)
  raise_if (not (may_administer snapshot)) authorization_error
  gets (λ db. get user_key (platform, operator_openid) db.users)

-- The join with `user_permissions` is on its primary key.
abbrev pub is_command_admin : List UserPermission → String → User → Bool
is_command_admin permissions platform u =
    (u.platform == platform)
    && (is_admin u.role
        && (is_active u.account_status && has_permission permissions (user_key u) "command"))

unfoldable pub active_command_admin_count : String → Database → ℕ
active_command_admin_count platform db =
    length (select (is_command_admin db.permissions platform) db.users)

-- The keyword arguments of `set_permissions`; the set of permissions is a list without repetitions.
pub record PermissionChange : Type 0 where
  pub platform : String
  pub openid : String
  pub permissions : List String
  pub granted : Bool
  pub operator_openid : String
  pub request_id : Option String

-- A new row with the column defaults.
abbrev pub new_user : String → String → User
new_user platform openid = record {
  platform = platform;
  openid = openid;
  role = user;
  account_status = active;
  display_name = none;
}

-- `session.get(User, ..)`, and the insertion of a new user where there is none.
abbrev pub or_new_user : Option User → String → String → User
or_new_user none platform openid = new_user platform openid
or_new_user (some u) platform openid = u

unfoldable pub get_or_add_user : String → String → Action Database User
get_or_add_user platform openid db =
    let u = or_new_user (get user_key (platform, openid) db.users) platform openid in
    (ok u, record db { users = put user_key u db.users })

abbrev pub permission_row : String × String → Bool → String → String → UserPermission
permission_row target granted by key = record {
  platform = target.0;
  openid = target.1;
  permission_key = key;
  granted = granted;
  granted_by = some by;
}

-- The loop over the permission keys.
unfoldable pub set_rows :
    String × String → Bool → String → List String → List UserPermission → List UserPermission
set_rows target granted by [] rows = rows
set_rows target granted by (key ∷ rest) rows =
    set_rows target granted by rest (put permission_key (permission_row target granted by key) rows)

abbrev pub change_entry : String → String → String → String → Option String → Fields → AuditLog
change_entry platform operator openid action request_id details = record {
  actor_platform = some platform;
  actor_openid_masked = mask_identifier (some operator);
  target_type = "user";
  target_id_masked = mask_identifier (some openid);
  action = action;
  result = "success";
  request_id = request_id;
  details = details;
}

abbrev pub add_audit : AuditLog → Action Database (Unit {0})
add_audit entry = modify (λ db. record db { audit_logs = db.audit_logs ++ entry ∷ [] })

-- `permissions - VALID_PERMISSIONS` is not empty, or there is no permission.
abbrev pub invalid_request : List String → Bool
invalid_request [] = true
invalid_request (key ∷ keys) = any (λ k. not (contains valid_permissions k)) (key ∷ keys)

-- The test before a revocation.
unfoldable pub revokes_last_admin : PermissionChange → User → Database → Bool
revokes_last_admin r target db =
    not r.granted
    && (contains r.permissions "command"
        && (is_admin target.role
            && (is_active target.account_status
                && (has_permission db.permissions (r.platform, r.openid) "command"
                    && nat_beq (active_command_admin_count r.platform db) 1))))

unfoldable pub set_permissions : PermissionChange → Action Database PermissionSnapshot
set_permissions r = do
  raise_if (invalid_request r.permissions) value_error
  require_admin r.platform r.operator_openid
  target ← get_or_add_user r.platform r.openid
  last ← gets (revokes_last_admin r target)
  raise_if last last_admin_error
  modify (λ db. record db {
    permissions =
        set_rows (r.platform, r.openid) r.granted r.operator_openid r.permissions db.permissions;
  })
  add_audit (
      change_entry r.platform r.operator_openid r.openid (if r.granted then "grant" else "revoke")
        r.request_id (field "permissions" (list (str_items (sort_by text_le r.permissions))) end))
  gets (permission_snapshot r.platform r.openid)

-- The keyword arguments of `change_role`.
pub record RoleChange : Type 0 where
  pub platform : String
  pub openid : String
  pub role : String
  pub operator_openid : String
  pub request_id : Option String

abbrev pub role_of : String → Option Role
role_of s = if s == "user" then some user else if s == "admin" then some admin else none

unfoldable pub demotes_last_admin : RoleChange → Role → User → Database → Bool
demotes_last_admin r role target db =
    is_admin target.role
    && (not (is_admin role)
        && (is_active target.account_status
            && (has_permission db.permissions (r.platform, r.openid) "command"
                && nat_beq (active_command_admin_count r.platform db) 1)))

unfoldable pub change_role : RoleChange → Action Database PermissionSnapshot
change_role r = do
  role ← or_raise (role_of r.role) value_error
  require_admin r.platform r.operator_openid
  target ← get_or_add_user r.platform r.openid
  last ← gets (demotes_last_admin r role target)
  raise_if last last_admin_error
  modify (λ db. record db { users = put user_key (record target { role = role }) db.users })
  add_audit (
      change_entry r.platform r.operator_openid r.openid "change_role" r.request_id
        (field "role" (str r.role) end))
  gets (permission_snapshot r.platform r.openid)
