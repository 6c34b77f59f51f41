-- ===== src/Users/Roles.antt =====
-- No role change leaves a platform without an active admin.
use hermes_event_server.Base.{
  ◌≤◌, String, ◌≡◌, refl, sym, ap, subst, ◌∙◌, ◌≢◌, inl, inr, true, false, some, List, arith,
  Option-cases, select, length,
}
use hermes_event_server.Base.Equality.{Eq, string_eq, nat_eq, pair_eq}
use hermes_event_server.Base.Table.{get, put, get-put_self, get-put_ne}
use hermes_event_server.Base.Action.{ok}
use hermes_event_server.Models.{Role, user, admin, User, UserPermission, Database, user_key}
use hermes_event_server.Users.{
  PermissionSnapshot, permission_snapshot, may_administer, require_admin, is_command_admin,
  active_command_admin_count, get_or_add_user, or_new_user, RoleChange, role_of, demotes_last_admin,
  change_role,
}
use hermes_event_server.Users.Count.{count_pos, count-put}
use hermes_event_server.Users.Admins.{administrator, or_new_user-key, operator_row, target_found}

-- The guard of a demotion, read backwards.
not_last_demoted :
    (r : RoleChange) (u : User) (db : Database)
    → demotes_last_admin r user u db ≡ false
    → is_command_admin db.permissions r.platform u ≡ true
    → (r.platform, r.openid) ≡ user_key u
    → active_command_admin_count r.platform db ≢ 1
unfolding demotes_last_admin
not_last_demoted r u db last adm same = ground arith

-- What a role change that is not refused has passed, and what it has written.
pub record IsChanged (r : RoleChange) (db db' : Database) (s : PermissionSnapshot) : Type 0 where
  pub role : Role
  pub named : role_of r.role ≡ some role
  pub administers : may_administer (permission_snapshot r.platform r.operator_openid db) ≡ true
  pub target : User
  pub target_row :
      target ≡ or_new_user (get user_key (r.platform, r.openid) db.users) r.platform r.openid
  pub last :
      demotes_last_admin r role target (record db { users = put user_key target db.users }) ≡ false
  pub users :
      db'.users ≡ put user_key (record target { role = role }) (put user_key target db.users)
  pub permissions : db'.permissions ≡ db.permissions
  pub result : s ≡ permission_snapshot r.platform r.openid db'

named_role :
    (r : RoleChange) (db db' : Database) (s : PermissionSnapshot)
    → change_role r db ≡ (ok s, db')
    → (role : Role) × (role_of r.role ≡ some role)
unfolding change_role
named_role r db db' s h = elim (Option-cases (role_of r.role)) [
  | inl e ↦ absurd (ground arith)
  | inr (role, e) ↦ (role, e)
]

-- A role change that is not refused names a role, comes from an administrator and has passed the
-- test for the last one; it writes the role to the target's row, a new one if there was none, leaves the
-- permissions as they are, and returns the target's snapshot.
pub change_role-IsChanged :
    (r : RoleChange) (db db' : Database) (s : PermissionSnapshot)
    → change_role r db ≡ (ok s, db')
    → IsChanged r db db' s
unfolding change_role require_admin get_or_add_user
change_role-IsChanged r db db' s h =
    let (role, e) = named_role r db db' s h in
    record {
      role = role;
      named = e;
      administers = ground arith;
      target = or_new_user (get user_key (r.platform, r.openid) db.users) r.platform r.openid;
      target_row = refl;
      last = ground arith;
      users = ground arith;
      permissions = ground arith;
      result = ground arith;
    }

-- The last active admin is not demoted: writing the new role leaves somebody.
demotion_leaves :
    (platform : String) (rows : List UserPermission) (users : List User) (t u : User) (role : Role)
    → get user_key (user_key u) users ≡ some u
    → is_command_admin rows platform u ≡ true
    → (user_key t ≡ user_key u → t ≡ u)
    → (t ≡ u → role ≡ user → length (select (is_command_admin rows platform) users) ≢ 1)
    → 1
      ≤ length
          (select (is_command_admin rows platform) (put user_key (record t { role = role }) users))
demotion_leaves platform rows users t u admin e adm own last =
    elim (Eq.dec (pair_eq {A = String} {B = String}) (user_key t) (user_key u)) [
      | yes same ↦
          count_pos user_key (is_command_admin rows platform) (user_key u)
            (record t { role = admin }) _
            (rw (← same) (get-put_self user_key (record t { role = admin }) users))
            (ground (arith, own same))
      | no differ ↦
          count_pos user_key (is_command_admin rows platform) (user_key u) u _
            (get-put_ne user_key (user_key u) (record t { role = admin }) users differ ∙ e) adm
    ]
demotion_leaves platform rows users t u user e adm own last =
    elim (Eq.dec (pair_eq {A = String} {B = String}) (user_key t) (user_key u)) [
      | yes same ↦ omega (
        arith,
        last (own same) refl,
        count_pos user_key (is_command_admin rows platform) (user_key u) u users e adm,
        count-put user_key (is_command_admin rows platform) (record t { role = user }) users,
      )
      | no differ ↦
          count_pos user_key (is_command_admin rows platform) (user_key u) u _
            (get-put_ne user_key (user_key u) (record t { role = user }) users differ ∙ e) adm
    ]

-- After a role change that is not refused the platform has an active admin with command permission.
pub change_role_leaves_admin :
    (r : RoleChange) (db db' : Database) (s : PermissionSnapshot)
    → change_role r db ≡ (ok s, db')
    → 1 ≤ active_command_admin_count r.platform db'
unfolding active_command_admin_count
change_role_leaves_admin r db db' s h =
    let g = change_role-IsChanged r db db' s h in
    let (u, e, ku, adm) = administrator r.platform r.operator_openid db g.administers in
    let users' = put user_key g.target db.users in
    let row : get user_key (user_key u) users' ≡ some u =
      rw (ku, g.target_row) (operator_row r.platform r.operator_openid r.openid u db.users e) in
    let key : user_key g.target ≡ (r.platform, r.openid) =
      rw g.target_row (or_new_user-key r.platform r.openid db.users) in
    rw (g.users, g.permissions)
      (demotion_leaves r.platform db.permissions users' g.target u g.role row adm
        (λ same.
          g.target_row ∙ target_found r.platform r.openid u db.users (sym key ∙ same) (rw ku e))
        (λ same demoted.
          not_last_demoted r u (record db { users = users' })
            (subst (λ x. demotes_last_admin r x u (record db { users = users' }) ≡ false) demoted
              (subst (λ t. demotes_last_admin r g.role t (record db { users = users' }) ≡ false)
                same g.last))
            adm (sym key ∙ ap user_key same)))
