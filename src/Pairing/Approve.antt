-- ===== src/Pairing/Approve.antt =====
-- What an approval that is not refused has passed and written, and that a code is used once.
use hermes_event_server.Base.{
  String, ◌≡◌, refl, inl, inr, true, false, some, List, arith, is_some, Bool-cases, Option-cases,
}
use hermes_event_server.Base.Equality.{string_eq, nat_eq, pair_eq}
use hermes_event_server.Base.Table.{get, put, get-put_self, key-get}
use hermes_event_server.Base.Action.{Error, authorization_error, pairing_code_error, ok, err}
use hermes_event_server.Models.{Time, PairingCode, Database, pairing_key}
use hermes_event_server.Users.{
  PermissionSnapshot, permission_snapshot, PermissionChange, require_admin, may_administer,
  set_permissions, get_or_add_user,
}
use hermes_event_server.Pairing.{
  is_spent, consumed, Approval, grant_for, pairing_code_hash, approve_pairing_code,
}

-- A grant leaves the codes alone, whether it is refused or not.
set_permissions_codes :
    (r : PermissionChange) (db : Database)
    → (set_permissions r db).1.pairing_codes ≡ db.pairing_codes
unfolding set_permissions require_admin get_or_add_user
set_permissions_codes r db = ground arith

-- The code of a digest was used.
abbrev pub IsUsed : String → List PairingCode → Type 0
IsUsed hash codes =
    (row : PairingCode) × (get pairing_key hash codes ≡ some row) × (is_some row.consumed_at ≡ true)

module _ (sha256 upper : String → String) where
  pub record IsApproved (r : Approval) (now : Time) (db db' : Database) (s : PermissionSnapshot)
      : Type 0 where
    pub administers : may_administer (permission_snapshot r.platform r.operator_openid db) ≡ true
    pub row : PairingCode
    pub found : get pairing_key (pairing_code_hash sha256 upper r.code) db.pairing_codes ≡ some row
    pub platform : row.platform ≡ r.platform
    pub unspent : is_spent now row ≡ false
    pub granted : (set_permissions (grant_for r row) db).0 ≡ ok s
    pub saved : db' ≡ record (set_permissions (grant_for r row) db).1 {
      pairing_codes = put pairing_key (consumed r.operator_openid now row) db.pairing_codes;
    }

  -- An approval that is not refused comes from an administrator and has a code of the platform that
  -- is neither expired nor used; it grants what `set_permissions` grants to the code's user, and the
  -- code is consumed.
  pub approve-IsApproved :
      (r : Approval) (now : Time) (db db' : Database) (s : PermissionSnapshot)
      → approve_pairing_code sha256 upper r now db ≡ (ok s, db')
      → IsApproved r now db db' s
  unfolding approve_pairing_code require_admin
  approve-IsApproved r now db db' s h =
      elim (Option-cases
        (get pairing_key (pairing_code_hash sha256 upper r.code) db.pairing_codes)) [
          | inl e ↦ absurd (ground arith)
          | inr (row, e) ↦ record {
            administers = ground arith;
            row = row;
            found = e;
            platform = ground arith;
            unspent = ground arith;
            granted = ground arith;
            saved = ground (arith, set_permissions_codes (grant_for r row) db);
          }
        ]

  -- A used code is refused, and nothing is written.
  pub approve_used :
      (r : Approval) (now : Time) (db : Database)
      → IsUsed (pairing_code_hash sha256 upper r.code) db.pairing_codes
      → (e : Error) × (approve_pairing_code sha256 upper r now db ≡ (err e, db))
  unfolding approve_pairing_code require_admin
  approve_used r now db (row, found, used) =
      elim (Bool-cases (may_administer (permission_snapshot r.platform r.operator_openid db))) [
        | inl may ↦ (pairing_code_error, ground arith)
        | inr refused ↦ (authorization_error, ground arith)
      ]

  -- A code is approved once: after an approval that is not refused, every approval with the code,
  -- at any time and by anybody, is refused and writes nothing.
  pub approve_once :
      (r r' : Approval) (now now' : Time) (db db' : Database) (s : PermissionSnapshot)
      → approve_pairing_code sha256 upper r now db ≡ (ok s, db')
      → upper r'.code ≡ upper r.code
      → (e : Error) × (approve_pairing_code sha256 upper r' now' db' ≡ (err e, db'))
  unfolding pairing_code_hash
  approve_once r r' now now' db db' s h same =
      let a = approve-IsApproved r now db db' s h in
      let done = consumed r.operator_openid now a.row in
      let key : a.row.code_hash ≡ sha256 (upper r'.code) =
        rw same (key-get pairing_key (sha256 (upper r.code)) a.row db.pairing_codes a.found) in
      approve_used r' now' db'
        (done, rw (a.saved, ← key) (get-put_self pairing_key done db.pairing_codes), refl)
