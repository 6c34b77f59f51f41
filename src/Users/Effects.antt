-- ===== src/Users/Effects.antt =====
-- What a grant, a revocation or a role change that is not refused has done to the tables.
use hermes_event_server.Base.{
  ◌≤◌, String, ◌≡◌, refl, sym, ap, subst, ◌∙◌, ◌⊎◌, inl, inr, true, false, not, ◌&&◌, Option, none,
  some, List, [], ◌∷◌, arith, All, if◌then◌else◌, Bool-cases, any, length,
}
use hermes_event_server.Base.Equality.{◌==◌, contains, string_eq, nat_eq, pair_eq}
use hermes_event_server.Base.Table.{get, put, get-put, get-put_self, put-put_at}
use hermes_event_server.Base.Action.{ok}
use hermes_event_server.Models.{Role, user, admin, active, User, UserPermission, Database, user_key}
use hermes_event_server.Users.{
  PermissionSnapshot, has_permission, permission_snapshot, may_administer,
  active_command_admin_count, PermissionChange, or_new_user, invalid_request, set_permissions,
  RoleChange, role_of, change_role,
}
use hermes_event_server.Users.Admins.{
  has_permission-set_rows, set_permissions-IsGranted, administrator, or_new_user-key,
}
use hermes_event_server.Users.Roles.{change_role-IsChanged, change_role_leaves_admin}

-- The operator is an active administrator with command permission.
abbrev pub IsOperator : String → String → Database → Type 0
IsOperator platform openid db =
    (u : User) × (get user_key (platform, openid) db.users ≡ some u)
    × (u.role ≡ admin)
    × (u.account_status ≡ active)
    × (has_permission db.permissions (platform, openid) "command" ≡ true)

abbrev pub IsPermission : String → Type 0
IsPermission k = (k ≡ "chat") ⊎ (k ≡ "command")

-- The row of a user: the one that was there, or else a new one, active and no administrator.
abbrev pub IsRowOf : String → String → Option User → User → Type 0
IsRowOf platform openid (some u) row = row ≡ u
IsRowOf platform openid none row = row ≡ record {
  platform = platform;
  openid = openid;
  role = user;
  account_status = active;
  display_name = none;
}

-- The same with another role.
abbrev pub IsRowWith : Role → String → String → Option User → User → Type 0
IsRowWith role platform openid (some u) row = row ≡ record u { role = role }
IsRowWith role platform openid none row = row ≡ record {
  platform = platform;
  openid = openid;
  role = role;
  account_status = active;
  display_name = none;
}

abbrev pub IsNamed : String → Role → Type 0
IsNamed name user = name ≡ "user"
IsNamed name admin = name ≡ "admin"

-- The snapshot shows the row and the permissions.
pub record Shows (s : PermissionSnapshot) (row : User) (permissions : List UserPermission)
    : Type 0 where
  pub user : (s.platform, s.openid) ≡ user_key row
  pub status : s.account_status ≡ some row.account_status
  pub role : s.role ≡ row.role
  pub chat : s.chat ≡ has_permission permissions (user_key row) "chat"
  pub command : s.command ≡ has_permission permissions (user_key row) "command"

pub record IsPermitted (r : PermissionChange) (db db' : Database) (s : PermissionSnapshot)
    : Type 0 where
  pub operator : IsOperator r.platform r.operator_openid db
  pub some_named : 1 ≤ length r.permissions
  pub named : All IsPermission r.permissions
  pub row : User
  pub own : IsRowOf r.platform r.openid (get user_key (r.platform, r.openid) db.users) row
  pub users :
      (who : String × String)
      → get user_key who db'.users
        ≡ (if (r.platform, r.openid) == who then some row else get user_key who db.users)
  pub permissions :
      (who : String × String) (k : String)
      → has_permission db'.permissions who k ≡ (
          if ((r.platform, r.openid) == who) && contains r.permissions k
          then r.granted
          else has_permission db.permissions who k)
  pub shown : Shows s row db'.permissions

pub record HasRole (r : RoleChange) (db db' : Database) (s : PermissionSnapshot) : Type 0 where
  pub operator : IsOperator r.platform r.operator_openid db
  pub role : Role
  pub named : IsNamed r.role role
  pub row : User
  pub own : IsRowWith role r.platform r.openid (get user_key (r.platform, r.openid) db.users) row
  pub users :
      (who : String × String)
      → get user_key who db'.users
        ≡ (if (r.platform, r.openid) == who then some row else get user_key who db.users)
  pub permissions : db'.permissions ≡ db.permissions
  pub administered : 1 ≤ active_command_admin_count r.platform db'
  pub shown : Shows s row db'.permissions

pub operator_stands :
    (platform openid : String) (db : Database)
    → may_administer (permission_snapshot platform openid db) ≡ true
    → IsOperator platform openid db
operator_stands platform openid db h =
    let (u, e, k, adm) = administrator platform openid db h in
    (u, e, ground (arith, adm), ground (arith, adm), ground (arith, k, adm))

contains-IsPermission : (k : String) → contains ("chat" ∷ "command" ∷ []) k ≡ true → IsPermission k
contains-IsPermission k h = elim (Bool-cases ("chat" == k)) [
  | inl e ↦ inl (ground (arith, e))
  | inr n ↦ inr (ground (arith, h, n))
]

only_permissions :
    (ks : List String)
    → any (λ k. not (contains ("chat" ∷ "command" ∷ []) k)) ks ≡ false
    → All IsPermission ks
only_permissions [] h = tt
only_permissions (k ∷ ks) h =
    (contains-IsPermission k (ground (arith, h)), only_permissions ks (ground (arith, h)))

named_valid :
    (ks : List String) → invalid_request ks ≡ false → (1 ≤ length ks) × All IsPermission ks
named_valid [] h = ground (arith, h)
named_valid (k ∷ ks) h = (omega arith, only_permissions (k ∷ ks) h)

or_new_user-IsRowOf :
    (platform openid : String) (found : Option User)
    → IsRowOf platform openid found (or_new_user found platform openid)
or_new_user-IsRowOf platform openid none = refl
or_new_user-IsRowOf platform openid (some u) = refl

or_new_user-IsRowWith :
    (role : Role) (platform openid : String) (found : Option User)
    → IsRowWith role platform openid found
        (record (or_new_user found platform openid) { role = role })
or_new_user-IsRowWith role platform openid none = refl
or_new_user-IsRowWith role platform openid (some u) = refl

-- A snapshot of a user that is found.
snapshot-Shows :
    (platform openid : String) (row : User) (db : Database)
    → get user_key (platform, openid) db.users ≡ some row
    → user_key row ≡ (platform, openid)
    → Shows (permission_snapshot platform openid db) row db.permissions
unfolding permission_snapshot
snapshot-Shows platform openid row db e k =
    rw e
      (record { user = sym k; status = refl; role = refl; chat = rw k refl; command = rw k refl })

stored_row :
    (row : User) (target : String × String) (users users' : List User)
    → users' ≡ put user_key row users
    → user_key row ≡ target
    → get user_key target users' ≡ some row
stored_row row target users users' h k =
    subst (λ t. get user_key t users' ≡ some row) k (rw h (get-put_self user_key row users))

stored_rows :
    (row : User) (target : String × String) (users users' : List User)
    → users' ≡ put user_key row users
    → user_key row ≡ target
    → (who : String × String)
    → get user_key who users' ≡ (if target == who then some row else get user_key who users)
stored_rows row target users users' h k who =
    subst (λ t. get user_key who users' ≡ (if t == who then some row else get user_key who users)) k
      (rw h (get-put user_key who row users))

-- A grant or a revocation that is not refused comes from an active administrator with command
-- permission and names permissions of "chat" and "command", at least one. Afterwards the target has a
-- row, the one it had or a new active one without the role of an administrator, and no other user's
-- row has changed; exactly the named permissions of the target have the value that was asked for, and
-- every other permission of any user is as before; and the result shows the target's row and its
-- permissions.
pub set_permissions-IsPermitted :
    (r : PermissionChange) (db db' : Database) (s : PermissionSnapshot)
    → set_permissions r db ≡ (ok s, db')
    → IsPermitted r db db' s
set_permissions-IsPermitted r db db' s h =
    let g = set_permissions-IsGranted r db db' s h in
    let row = or_new_user (get user_key (r.platform, r.openid) db.users) r.platform r.openid in
    let key : user_key row ≡ (r.platform, r.openid) =
      or_new_user-key r.platform r.openid db.users in
    let (some_named, named) = named_valid r.permissions g.named in
    let users : db'.users ≡ put user_key row db.users =
      g.users ∙ ap (λ t. put user_key t db.users) g.target_row in
    let found : get user_key (r.platform, r.openid) db'.users ≡ some row =
      stored_row row (r.platform, r.openid) db.users db'.users users key in
    record {
      operator = operator_stands r.platform r.operator_openid db g.administers;
      some_named = some_named;
      named = named;
      row = row;
      own = or_new_user-IsRowOf r.platform r.openid (get user_key (r.platform, r.openid) db.users);
      users = stored_rows row (r.platform, r.openid) db.users db'.users users key;
      permissions = λ who k. rw g.permissions (
          has_permission-set_rows (r.platform, r.openid) r.granted r.operator_openid r.permissions
            db.permissions who k);
      shown =
          subst (λ x. Shows x row db'.permissions) (sym g.result)
            (snapshot-Shows r.platform r.openid row db' found key);
    }

role_of-IsNamed : (name : String) (role : Role) → role_of name ≡ some role → IsNamed name role
role_of-IsNamed name role h = elim (Bool-cases (name == "user")) [
  | inl e ↦
      let same : user ≡ role = ground (arith, rw e at h) in
      subst (IsNamed name) same (ground (arith, e))
  | inr n ↦ elim (Bool-cases (name == "admin")) [
    | inl e ↦
        let same : admin ≡ role = ground (arith, rw (n, e) at h) in
        subst (IsNamed name) same (ground (arith, e))
    | inr m ↦ absurd (ground (arith, rw (n, m) at h))
  ]
]

-- A role change that is not refused comes from an active administrator with command permission and
-- names the role "user" or "admin". Afterwards the target's row, the one it had or a new active one,
-- has that role and is otherwise as it was, no other user's row and no permission has changed, the
-- platform has an active administrator with command permission, and the result shows the target's
-- row and its permissions.
pub change_role-HasRole :
    (r : RoleChange) (db db' : Database) (s : PermissionSnapshot)
    → change_role r db ≡ (ok s, db')
    → HasRole r db db' s
change_role-HasRole r db db' s h =
    let g = change_role-IsChanged r db db' s h in
    let old = or_new_user (get user_key (r.platform, r.openid) db.users) r.platform r.openid in
    let row = record old { role = g.role } in
    let key : user_key row ≡ (r.platform, r.openid) =
      or_new_user-key r.platform r.openid db.users in
    let users : db'.users ≡ put user_key row db.users =
      g.users
      ∙ ap (λ t. put user_key (record t { role = g.role }) (put user_key t db.users)) g.target_row
      ∙ put-put_at user_key row old db.users refl in
    let found : get user_key (r.platform, r.openid) db'.users ≡ some row =
      stored_row row (r.platform, r.openid) db.users db'.users users key in
    record {
      operator = operator_stands r.platform r.operator_openid db g.administers;
      role = g.role;
      named = role_of-IsNamed r.role g.role g.named;
      row = row;
      own =
          or_new_user-IsRowWith g.role r.platform r.openid
            (get user_key (r.platform, r.openid) db.users);
      users = stored_rows row (r.platform, r.openid) db.users db'.users users key;
      permissions = g.permissions;
      administered = change_role_leaves_admin r db db' s h;
      shown =
          subst (λ x. Shows x row db'.permissions) (sym g.result)
            (snapshot-Shows r.platform r.openid row db' found key);
    }
