-- ===== src/Tests/Users.antt =====
-- Runs of the permission service: an admin on a platform with one other user.
use hermes_event_server.Base.{◌≤◌, String, ◌≡◌, refl, ap, true, false, none, some, [], ◌∷◌}
use hermes_event_server.Base.Equality.{string_eq, nat_eq, pair_eq, string_discrete, distinct}
use hermes_event_server.Base.Table.{get, put, IsKeyed}
use hermes_event_server.Base.Action.{ok}
use hermes_event_server.Models.{user, admin, active, User, Database, empty_database, user_key}
use hermes_event_server.Users.{
  PermissionSnapshot, PermissionChange, RoleChange, set_permissions, change_role,
  active_command_admin_count, permission_row, new_user, permission_snapshot,
}
use hermes_event_server.Users.Admins.{set_permissions_leaves_admin}
use hermes_event_server.Users.Roles.{change_role_leaves_admin}
use hermes_event_server.Users.Effects.{
  IsPermitted, HasRole, set_permissions-IsPermitted, change_role-HasRole,
}

abbrev operator : User
operator = record (new_user "qq" "op") { role = admin }

abbrev users_db : Database
users_db = record empty_database {
  users = operator ∷ new_user "qq" "amy" ∷ [];
  permissions = permission_row ("qq", "op") true "sys" "command" ∷ [];
}

users_db-IsKeyed : IsKeyed user_key users_db.users
unfolding string_discrete
users_db-IsKeyed =
    (((λ p. distinct "amy" "op" refl (ap (λ (k : String × String). k.1) p)), tt), (tt, tt))

abbrev grant : PermissionChange
grant = record {
  platform = "qq";
  openid = "amy";
  permissions = "command" ∷ [];
  granted = true;
  operator_openid = "op";
  request_id = none;
}

abbrev granted_amy : PermissionSnapshot
granted_amy = record {
  platform = "qq";
  openid = "amy";
  account_status = some active;
  role = user;
  chat = false;
  command = true;
}

abbrev after_grant : Database
after_grant = (set_permissions grant users_db).1

grant_run : set_permissions grant users_db ≡ (ok granted_amy, after_grant)
unfolding set_permissions string_discrete hermes_event_server.Users.require_admin
    permission_snapshot get pair_eq hermes_event_server.Users.has_permission
    hermes_event_server.Users.get_or_add_user hermes_event_server.Users.revokes_last_admin put
    hermes_event_server.Users.set_rows
grant_run = refl

set_permissions-IsPermitted_example : IsPermitted grant users_db after_grant granted_amy
set_permissions-IsPermitted_example =
    set_permissions-IsPermitted grant users_db after_grant granted_amy grant_run

set_permissions_leaves_admin_example : 1 ≤ active_command_admin_count "qq" after_grant
set_permissions_leaves_admin_example =
    set_permissions_leaves_admin grant users_db after_grant granted_amy users_db-IsKeyed grant_run

abbrev promotion : RoleChange
promotion = record {
  platform = "qq";
  openid = "amy";
  role = "admin";
  operator_openid = "op";
  request_id = none;
}

abbrev promoted_amy : PermissionSnapshot
promoted_amy = record {
  platform = "qq";
  openid = "amy";
  account_status = some active;
  role = admin;
  chat = false;
  command = false;
}

abbrev after_promotion : Database
after_promotion = (change_role promotion users_db).1

promotion_run : change_role promotion users_db ≡ (ok promoted_amy, after_promotion)
unfolding change_role string_discrete hermes_event_server.Users.require_admin permission_snapshot
    get pair_eq hermes_event_server.Users.has_permission hermes_event_server.Users.get_or_add_user
    hermes_event_server.Users.demotes_last_admin put
promotion_run = refl

change_role-HasRole_example : HasRole promotion users_db after_promotion promoted_amy
change_role-HasRole_example =
    change_role-HasRole promotion users_db after_promotion promoted_amy promotion_run

change_role_leaves_admin_example : 1 ≤ active_command_admin_count "qq" after_promotion
change_role_leaves_admin_example =
    change_role_leaves_admin promotion users_db after_promotion promoted_amy promotion_run
