-- ===== src/Pairing/Effect.antt =====
-- What an approval that is not refused has done to the tables.
use hermes_event_server.Base.{
  ◌<◌, String, ◌≡◌, ap, subst, sym, ◌∙◌, true, false, ◌&&◌, none, some, arith, if◌then◌else◌,
}
use hermes_event_server.Base.Equality.{◌==◌, contains, string_eq, nat_eq, pair_eq}
use hermes_event_server.Base.Table.{get, put, get-put, key-get}
use hermes_event_server.Base.Action.{ok}
use hermes_event_server.Models.{Time, User, PairingCode, Database, user_key, pairing_key}
use hermes_event_server.Users.{PermissionSnapshot, has_permission, set_permissions}
use hermes_event_server.Users.Effects.{IsOperator, IsRowOf, Shows, set_permissions-IsPermitted}
use hermes_event_server.Pairing.{
  Approval, is_spent, grant_for, consumed, pairing_code_hash, approve_pairing_code,
}
use hermes_event_server.Pairing.Approve.{approve-IsApproved}

unspent-unconsumed :
    (now : Time) (row : PairingCode) → is_spent now row ≡ false → row.consumed_at ≡ none
unspent-unconsumed now row h = ground (arith, h)

unspent-unexpired :
    (now : Time) (row : PairingCode) → is_spent now row ≡ false → now < row.expires_at
unspent-unexpired now row h = ground (arith, h)

module _ (sha256 upper : String → String) where
  pub record IsPaired (r : Approval) (now : Time) (db db' : Database) (s : PermissionSnapshot)
      : Type 0 where
    pub operator : IsOperator r.platform r.operator_openid db
    pub code : PairingCode
    pub found : get pairing_key (sha256 (upper r.code)) db.pairing_codes ≡ some code
    pub platform : code.platform ≡ r.platform
    pub unused : code.consumed_at ≡ none
    pub unexpired : now < code.expires_at
    pub row : User
    pub own : IsRowOf r.platform code.openid (get user_key (r.platform, code.openid) db.users) row
    pub users :
        (who : String × String)
        → get user_key who db'.users
          ≡ (if (r.platform, code.openid) == who then some row else get user_key who db.users)
    pub permissions :
        (who : String × String) (k : String)
        → has_permission db'.permissions who k ≡ (
            if ((r.platform, code.openid) == who) && contains r.permissions k
            then true
            else has_permission db.permissions who k)
    pub shown : Shows s row db'.permissions
    pub codes :
        (hash : String)
        → get pairing_key hash db'.pairing_codes ≡ (
            if sha256 (upper r.code) == hash
            then some (record code {
              approved_by = some r.operator_openid;
              approved_at = some now;
              consumed_at = some now;
            })
            else get pairing_key hash db.pairing_codes)

  -- An approval that is not refused comes from an active administrator with command permission, and
  -- its code is one of the platform that is neither used nor expired. Afterwards exactly the named
  -- permissions of the user that the code was made for are granted, every other permission of any
  -- user is as before, that user has a row, a new one if there was none, no other user's row has
  -- changed, the code is approved by the operator and used at the time of the approval, every other
  -- code is as before, and the result shows the user's row and its permissions.
  pub approve-IsPaired :
      (r : Approval) (now : Time) (db db' : Database) (s : PermissionSnapshot)
      → approve_pairing_code sha256 upper r now db ≡ (ok s, db')
      → IsPaired r now db db' s
  unfolding pairing_code_hash
  approve-IsPaired r now db db' s h =
      let a = approve-IsApproved sha256 upper r now db db' s h in
      let granted : Database = (set_permissions (grant_for r a.row) db).1 in
      let p =
        set_permissions-IsPermitted (grant_for r a.row) db granted s
          (ap (λ x. (x, granted)) a.granted) in
      let done = consumed r.operator_openid now a.row in
      let key : a.row.code_hash ≡ sha256 (upper r.code) =
        key-get pairing_key (sha256 (upper r.code)) a.row db.pairing_codes a.found in
      let codes : db'.pairing_codes ≡ put pairing_key done db.pairing_codes =
        ap (λ d. d.pairing_codes) a.saved in
      let same_users : db'.users ≡ granted.users = ap (λ d. d.users) a.saved in
      let same_permissions : db'.permissions ≡ granted.permissions =
        ap (λ d. d.permissions) a.saved in
      record {
        operator = p.operator;
        code = a.row;
        found = a.found;
        platform = a.platform;
        unused = unspent-unconsumed now a.row a.unspent;
        unexpired = unspent-unexpired now a.row a.unspent;
        row = p.row;
        own = p.own;
        users = λ who. ap (get user_key who) same_users ∙ p.users who;
        permissions =
            λ who k. ap (λ rows. has_permission rows who k) same_permissions ∙ p.permissions who k;
        shown = subst (Shows s p.row) (sym same_permissions) p.shown;
        codes = λ hash.
            ap (get pairing_key hash) codes
            ∙ subst
                (λ c.
                  get pairing_key hash (put pairing_key done db.pairing_codes)
                  ≡ (if c == hash then some done else get pairing_key hash db.pairing_codes))
                key (get-put pairing_key hash done db.pairing_codes);
      }
