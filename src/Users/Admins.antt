-- ===== src/Users/Admins.antt =====
-- No grant, revocation or role change leaves a platform without an active admin.
use hermes_event_server.Users.{
  PermissionSnapshot, has_permission, permission_snapshot, may_administer, require_admin,
  is_command_admin, active_command_admin_count, PermissionChange, get_or_add_user, or_new_user,
  set_rows, permission_row, invalid_request, revokes_last_admin, set_permissions,
}
use hermes_event_server.Users.Count.{count_pos, count-le-suc}
use hermes_event_server.Base.{
  ◌≤◌, String, ◌≡◌, refl, sym, subst, ◌∙◌, ◌≢◌, inl, inr, Bool, true, false, ◌&&◌, some, List, [],
  ◌∷◌, arith, if◌then◌else◌, Bool-cases, Option-cases, select, length,
}
use hermes_event_server.Base.Equality.{Eq, ◌==◌, contains, string_eq, nat_eq, pair_eq}
use hermes_event_server.Base.Table.{get, put, get-put, get-put_ne, key-get, IsKeyed, put-IsKeyed}
use hermes_event_server.Base.Action.{ok}
use hermes_event_server.Models.{User, UserPermission, Database, user_key, permission_key}

has_permission-put :
    (target : String × String) (granted : Bool) (by key : String) (rows : List UserPermission)
    (who : String × String) (k : String)
    → has_permission (put permission_key (permission_row target granted by key) rows) who k
      ≡ (if (target == who) && (key == k) then granted else has_permission rows who k)
unfolding has_permission
has_permission-put target granted by key rows who k =
    rw (get-put permission_key (who, k) (permission_row target granted by key) rows) (ground arith)

-- After the loop a permission has the new value exactly if it is the target's and was named.
pub has_permission-set_rows :
    (target : String × String) (granted : Bool) (by : String) (named : List String)
    (rows : List UserPermission) (who : String × String) (k : String)
    → has_permission (set_rows target granted by named rows) who k
      ≡ (if (target == who) && contains named k then granted else has_permission rows who k)
unfolding set_rows
has_permission-set_rows target granted by [] rows who k = ground arith
has_permission-set_rows target granted by (key ∷ rest) rows who k = ground (
  arith,
  has_permission-set_rows target granted by rest
      (put permission_key (permission_row target granted by key) rows) who k,
  has_permission-put target granted by key rows who k,
)

-- What a request that is not refused has passed, and what it has written.
pub record IsGranted (r : PermissionChange) (db db' : Database) (s : PermissionSnapshot)
    : Type 0 where
  pub named : invalid_request r.permissions ≡ false
  pub administers : may_administer (permission_snapshot r.platform r.operator_openid db) ≡ true
  pub target : User
  pub target_row :
      target ≡ or_new_user (get user_key (r.platform, r.openid) db.users) r.platform r.openid
  pub last :
      revokes_last_admin r target (record db { users = put user_key target db.users }) ≡ false
  pub users : db'.users ≡ put user_key target db.users
  pub permissions :
      db'.permissions
      ≡ set_rows (r.platform, r.openid) r.granted r.operator_openid r.permissions db.permissions
  pub result : s ≡ permission_snapshot r.platform r.openid db'

-- A grant or a revocation that is not refused names valid permissions, comes from an administrator and
-- has passed the test for the last one; it writes the target's row, a new one if there was none, and one row
-- for each named permission, and returns the target's snapshot.
pub set_permissions-IsGranted :
    (r : PermissionChange) (db db' : Database) (s : PermissionSnapshot)
    → set_permissions r db ≡ (ok s, db')
    → IsGranted r db db' s
unfolding set_permissions require_admin get_or_add_user
set_permissions-IsGranted r db db' s h = record {
  named = ground arith;
  administers = ground arith;
  target = or_new_user (get user_key (r.platform, r.openid) db.users) r.platform r.openid;
  target_row = refl;
  last = ground arith;
  users = ground arith;
  permissions = ground arith;
  result = ground arith;
}

pub administrator :
    (platform openid : String) (db : Database)
    → may_administer (permission_snapshot platform openid db) ≡ true
    → (u : User) × (get user_key (platform, openid) db.users ≡ some u)
      × (user_key u ≡ (platform, openid))
      × (is_command_admin db.permissions platform u ≡ true)
unfolding permission_snapshot
administrator platform openid db h =
    elim (Option-cases (get user_key (platform, openid) db.users)) [
      | inl e ↦ absurd (ground arith)
      | inr (u, e) ↦
          let k : user_key u ≡ (platform, openid) =
            key-get user_key (platform, openid) u db.users e in
          (u, e, k, ground arith)
    ]

pub or_new_user-key :
    (platform openid : String) (users : List User)
    → user_key (or_new_user (get user_key (platform, openid) users) platform openid)
      ≡ (platform, openid)
or_new_user-key platform openid users =
    elim (Option-cases (get user_key (platform, openid) users)) [
      | inl e ↦ rw e
      | inr (u, e) ↦ rw e (key-get user_key (platform, openid) u users e)
    ]

-- The row of the operator is still there once the target has been looked up or added.
pub operator_row :
    (platform openid target : String) (u : User) (users : List User)
    → get user_key (platform, openid) users ≡ some u
    → get user_key
        (platform, openid)
        (put user_key (or_new_user (get user_key (platform, target) users) platform target) users)
      ≡ some u
operator_row platform openid target u users e =
    let row = or_new_user (get user_key (platform, target) users) platform target in
    let k = or_new_user-key platform target users in
    elim (Eq.dec (pair_eq {A = String} {B = String}) (platform, target) (platform, openid)) [
      | yes same ↦
          let found : get user_key (platform, target) users ≡ some u = rw same e in
          let own : row ≡ u = rw found refl in
          get-put user_key (platform, openid) row users ∙ ground arith
      | no differ ↦ get-put_ne user_key (platform, openid) row users (λ p. differ (sym k ∙ p)) ∙ e
    ]

module _ (platform target : String) (granted : Bool) (by : String) (named : List String)
    (rows : List UserPermission) where
  abbrev after_set : List UserPermission
  after_set = set_rows (platform, target) granted by named rows

  -- Only the target's standing can change.
  others_keep :
      (x : User)
      → user_key x ≢ (platform, target)
      → is_command_admin rows platform x ≡ is_command_admin after_set platform x
  others_keep x h = ground (
    arith,
    has_permission-set_rows (platform, target) granted by named rows (user_key x) "command",
    λ (p : (platform, target) ≡ user_key x). h (sym p),
  )

  -- Who loses the standing is the target, and its command permission was revoked.
  loser :
      (u : User)
      → is_command_admin rows platform u ≡ true
      → is_command_admin after_set platform u ≡ false
      → ((platform, target) ≡ user_key u) × (contains named "command" ≡ true) × (granted ≡ false)
  loser u h h' = ground (
    arith,
    has_permission-set_rows (platform, target) granted by named rows (user_key u) "command",
  )

  -- If the operator would not revoke its own last command permission, somebody stays.
  someone_stays :
      (users : List User) (u : User)
      → IsKeyed user_key users
      → get user_key (user_key u) users ≡ some u
      → is_command_admin rows platform u ≡ true
      → ((platform, target) ≡ user_key u
          → contains named "command" ≡ true
          → granted ≡ false
          → length (select (is_command_admin rows platform) users) ≢ 1)
      → 1 ≤ length (select (is_command_admin after_set platform) users)
  someone_stays users u k e adm last = elim (Bool-cases (is_command_admin after_set platform u)) [
    | inl stays ↦
        count_pos user_key (is_command_admin after_set platform) (user_key u) u users e stays
    | inr lost ↦
        let (same, named_command, revoked) = loser u adm lost in
        omega (
          arith,
          count_pos user_key (is_command_admin rows platform) (user_key u) u users e adm,
          last same named_command revoked,
          count-le-suc user_key (is_command_admin rows platform)
              (is_command_admin after_set platform) (platform, target) users others_keep k,
        )
  ]

-- The guard of a revocation, read backwards.
not_last :
    (r : PermissionChange) (u : User) (db : Database)
    → revokes_last_admin r u db ≡ false
    → is_command_admin db.permissions r.platform u ≡ true
    → (r.platform, r.openid) ≡ user_key u
    → contains r.permissions "command" ≡ true
    → r.granted ≡ false
    → active_command_admin_count r.platform db ≢ 1
unfolding revokes_last_admin
not_last r u db last adm same named revoked = ground arith

-- The looked-up target is the user that its key finds.
pub target_found :
    (platform openid : String) (u : User) (users : List User)
    → (platform, openid) ≡ user_key u
    → get user_key (user_key u) users ≡ some u
    → or_new_user (get user_key (platform, openid) users) platform openid ≡ u
target_found platform openid u users same e =
    let found : get user_key (platform, openid) users ≡ some u = rw same e in rw found refl

-- After a grant or a revocation that is not refused the platform has an active admin with command
-- permission, if the keys of the users were unique.
pub set_permissions_leaves_admin :
    (r : PermissionChange) (db db' : Database) (s : PermissionSnapshot)
    → IsKeyed user_key db.users
    → set_permissions r db ≡ (ok s, db')
    → 1 ≤ active_command_admin_count r.platform db'
unfolding active_command_admin_count
set_permissions_leaves_admin r db db' s k h =
    let g = set_permissions-IsGranted r db db' s h in
    let (u, e, ku, adm) = administrator r.platform r.operator_openid db g.administers in
    let users' = put user_key g.target db.users in
    let row : get user_key (user_key u) users' ≡ some u =
      rw (ku, g.target_row) (operator_row r.platform r.operator_openid r.openid u db.users e) in
    rw (g.users, g.permissions)
      (someone_stays r.platform r.openid r.granted r.operator_openid r.permissions db.permissions
        users' u (put-IsKeyed user_key g.target db.users k) row adm
        (λ same named revoked.
          let own = g.target_row ∙ target_found r.platform r.openid u db.users same (rw ku e) in
          not_last r u (record db { users = users' })
            (subst
              (λ t.
                revokes_last_admin r t (record db { users = put user_key g.target db.users })
                ≡ false)
              own g.last)
            adm same named revoked))
