-- ===== src/Api/UserRoutes.antt =====
-- src/eventserver/api/users.py: grant, revoke and role requests.
use hermes_event_server.Base.{
  ℕ, ◌≤◌, String, ◌≡◌, ◌⊎◌, inl, inr, Bool, true, false, Option, none, some, List, [], ◌∷◌, arith,
}
use hermes_event_server.Base.Equality.{string_eq, nat_eq, pair_eq}
use hermes_event_server.Base.Table.{put, IsKeyed, put-IsKeyed}
use hermes_event_server.Base.Action.{
  Error, authorization_error, last_admin_error, Result-cases, ok, Action,
}
use hermes_event_server.Models.{Database, user_key}
use hermes_event_server.Api.{Reply, handle}
use hermes_event_server.Users.{
  PermissionSnapshot, permission_snapshot, PermissionChange, set_permissions, RoleChange,
  change_role, active_command_admin_count,
}
use hermes_event_server.Users.Admins.{set_permissions-IsGranted, set_permissions_leaves_admin}
use hermes_event_server.Users.Roles.{change_role-IsChanged, change_role_leaves_admin}

abbrev pub user_status : Error → Option ℕ
user_status authorization_error = some 403
user_status last_admin_error = some 409
user_status _ = none

unfoldable pub get_permission : String → String → Database → PermissionSnapshot
get_permission openid platform db = permission_snapshot platform openid db

-- The body of a grant or a revocation, and its context.
pub record PermissionRequest : Type 0 where
  pub openid : String
  pub permissions : List String
  pub operator_openid : String
  pub request_id : String

abbrev pub permission_change : PermissionRequest → Bool → String → PermissionChange
permission_change r granted platform = record {
  platform = platform;
  openid = r.openid;
  permissions = r.permissions;
  granted = granted;
  operator_openid = r.operator_openid;
  request_id = some r.request_id;
}

-- `_set_permission`
unfoldable pub set_permission :
    PermissionRequest → Bool → String → Database → Reply PermissionSnapshot × Database
set_permission r granted platform =
    handle user_status (set_permissions (permission_change r granted platform))

abbrev pub grant_permissions :
    PermissionRequest → String → Database → Reply PermissionSnapshot × Database
grant_permissions r platform = set_permission r true platform

abbrev pub revoke_permissions :
    PermissionRequest → String → Database → Reply PermissionSnapshot × Database
revoke_permissions r platform = set_permission r false platform

unfoldable pub update_role : RoleChange → Database → Reply PermissionSnapshot × Database
update_role r = handle user_status (change_role r)

-- A request to change users of a platform.
pub data UserRequest : Type 0 where
  grants revokes : PermissionRequest → UserRequest
  sets_role : String → String → String → String → UserRequest

unfoldable pub serve : String → UserRequest → Database → Database
serve platform (grants r) db = (grant_permissions r platform db).1
serve platform (revokes r) db = (revoke_permissions r platform db).1
serve platform (sets_role openid role operator id) db =
    (update_role
      (record {
        platform = platform;
        openid = openid;
        role = role;
        operator_openid = operator;
        request_id = some id;
      })
      db).1

unfoldable pub serve_all : String → List UserRequest → Database → Database
serve_all platform [] db = db
serve_all platform (r ∷ rs) db = serve_all platform rs (serve platform r db)

-- The platform has an active admin with command permission, and users have unique keys.
pub record IsGoverned (platform : String) (db : Database) : Type 0 where
  pub keyed : IsKeyed user_key db.users
  pub someone : 1 ≤ active_command_admin_count platform db

-- A request that is refused is rolled back.
handle-cases :
    {A : Type 0} (status : Error → Option ℕ) (m : Action Database A) (db : Database)
    → ((handle status m db).1 ≡ db) ⊎ ((a : A) × (m db ≡ (ok a, (handle status m db).1)))
unfolding handle
handle-cases status m db = elim (Result-cases (m db).0) [
  | inr (x, e) ↦ inl (ground arith)
  | inl (a, e) ↦ inr (a, ground arith)
]

set_permission-IsGoverned :
    (r : PermissionRequest) (granted : Bool) (platform : String) (db : Database)
    → IsGoverned platform db
    → IsGoverned platform (set_permission r granted platform db).1
unfolding set_permission
set_permission-IsGoverned r granted platform db g =
    let c = permission_change r granted platform in
    elim (handle-cases user_status (set_permissions c) db) [
      | inl e ↦ rw e g
      | inr (s, e) ↦
          let w = set_permissions-IsGranted c db (set_permission r granted platform db).1 s e in
          record {
            keyed = rw w.users (put-IsKeyed user_key w.target db.users g.keyed);
            someone =
                set_permissions_leaves_admin c db (set_permission r granted platform db).1 s g.keyed
                  e;
          }
    ]

update_role-IsGoverned :
    (r : RoleChange) (db : Database)
    → IsGoverned r.platform db
    → IsGoverned r.platform (update_role r db).1
unfolding update_role
update_role-IsGoverned r db g = elim (handle-cases user_status (change_role r) db) [
  | inl e ↦ rw e g
  | inr (s, e) ↦
      let w = change_role-IsChanged r db (update_role r db).1 s e in
      record {
        keyed = rw w.users (
            put-IsKeyed user_key (record w.target { role = w.role })
              (put user_key w.target db.users) (put-IsKeyed user_key w.target db.users g.keyed));
        someone = change_role_leaves_admin r db (update_role r db).1 s e;
      }
]

serve-IsGoverned :
    (platform : String) (r : UserRequest) (db : Database)
    → IsGoverned platform db
    → IsGoverned platform (serve platform r db)
unfolding serve
serve-IsGoverned platform (grants r) db g = set_permission-IsGoverned r true platform db g
serve-IsGoverned platform (revokes r) db g = set_permission-IsGoverned r false platform db g
serve-IsGoverned platform (sets_role openid role operator id) db g =
    update_role-IsGoverned
      (record {
        platform = platform;
        openid = openid;
        role = role;
        operator_openid = operator;
        request_id = some id;
      })
      db g

-- A platform with an active admin that has command permission, and with unique user keys, keeps both
-- through every history of grant, revoke and role requests, refused ones included, by anybody.
pub serve_all-IsGoverned :
    (platform : String) (rs : List UserRequest) (db : Database)
    → IsGoverned platform db
    → IsGoverned platform (serve_all platform rs db)
unfolding serve_all
serve_all-IsGoverned platform [] db g = g
serve_all-IsGoverned platform (r ∷ rs) db g =
    serve_all-IsGoverned platform rs (serve platform r db) (serve-IsGoverned platform r db g)
