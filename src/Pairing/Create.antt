-- ===== src/Pairing/Create.antt =====
-- A code that was created is approved in time.
use hermes_event_server.Base.{
  ℕ, ◌+◌, ◌*◌, ◌<◌, String, ◌≡◌, refl, true, false, Option, some, List, arith,
}
use hermes_event_server.Base.Equality.{string_eq, nat_eq, pair_eq}
use hermes_event_server.Base.Table.{get, put, get-put_self}
use hermes_event_server.Base.Action.{ok}
use hermes_event_server.Models.{Time, seconds, PairingCode, Database, pairing_key}
use hermes_event_server.Users.{
  PermissionSnapshot, permission_snapshot, PermissionChange, require_admin, may_administer,
  set_permissions, get_or_add_user, revokes_last_admin, invalid_request,
}
use hermes_event_server.Pairing.{
  is_spent, Approval, grant_for, pairing_code_hash, approve_pairing_code, create_pairing_code,
  new_code,
}

-- A grant of valid permissions by an administrator is not refused.
grant_succeeds :
    (r : PermissionChange) (db : Database)
    → r.granted ≡ true
    → invalid_request r.permissions ≡ false
    → may_administer (permission_snapshot r.platform r.operator_openid db) ≡ true
    → (s : PermissionSnapshot) × ((set_permissions r db).0 ≡ ok s)
unfolding set_permissions require_admin get_or_add_user revokes_last_admin
grant_succeeds r db g v may =
    (permission_snapshot r.platform r.openid (set_permissions r db).1, ground arith)

module _ (sha256 upper : String → String) where
  created :
      (choices : ℕ → String) (platform openid : String) (ttl : ℕ) (now : Time) (code : String)
      (row : PairingCode) (db db' : Database)
      → create_pairing_code sha256 upper choices platform openid ttl now db ≡ (ok (code, row), db')
      → (row ≡ new_code sha256 upper code platform openid ttl now)
        × (db' ≡ record db { pairing_codes = put pairing_key row db.pairing_codes })
  unfolding create_pairing_code
  created choices platform openid ttl now code row db db' h = (ground arith, ground arith)

  approve_found :
      (r : Approval) (later : Time) (row : PairingCode) (db : Database)
      → get pairing_key (pairing_code_hash sha256 upper r.code) db.pairing_codes ≡ some row
      → row.platform ≡ r.platform
      → is_spent later row ≡ false
      → may_administer (permission_snapshot r.platform r.operator_openid db) ≡ true
      → (s : PermissionSnapshot) × ((set_permissions (grant_for r row) db).0 ≡ ok s)
      → (s : PermissionSnapshot) × ((approve_pairing_code sha256 upper r later db).0 ≡ ok s)
  unfolding approve_pairing_code require_admin
  approve_found r later row db found same unspent may (s, e) = (s, ground arith)

  -- A code that was created for a user of a platform, whose flush did not fail, is approved for valid
  -- permissions by every administrator of the platform before its time is over.
  pub create-approve :
      (choices : ℕ → String) (platform openid : String) (ttl : ℕ) (now later : Time) (code : String)
      (row : PairingCode) (permissions : List String) (operator : String)
      (request_id : Option String) (db db' : Database)
      → create_pairing_code sha256 upper choices platform openid ttl now db ≡ (ok (code, row), db')
      → later < now + seconds (60 * ttl)
      → invalid_request permissions ≡ false
      → may_administer (permission_snapshot platform operator db) ≡ true
      → (s : PermissionSnapshot) × ((approve_pairing_code sha256 upper
            (record {
              code = code;
              permissions = permissions;
              operator_openid = operator;
              platform = platform;
              request_id = request_id;
            })
            later
            db').0
          ≡ ok s)
  unfolding permission_snapshot
  create-approve choices platform openid ttl now later code row permissions operator request_id db
        db' h time valid may =
      let (same, w) = created choices platform openid ttl now code row db db' h in
      let r : Approval = record {
        code = code;
        permissions = permissions;
        operator_openid = operator;
        platform = platform;
        request_id = request_id;
      } in
      let may' : may_administer (permission_snapshot platform operator db') ≡ true = rw w may in
      approve_found r later row db' (rw (w, same) (get-put_self pairing_key _ db.pairing_codes))
        (rw same refl) (rw same (ground arith)) may'
        (grant_succeeds (grant_for r row) db' refl valid may')
