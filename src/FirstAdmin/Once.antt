-- ===== src/FirstAdmin/Once.antt =====
-- What the first administrator's code does, once.
use hermes_event_server.Base.{◌≤◌, String, ◌≡◌, inl, inr, true, List, [], ◌∷◌, arith, Option-cases}
use hermes_event_server.Base.Equality.{string_eq, nat_eq, pair_eq}
use hermes_event_server.Base.Table.{get, put, get-put_self, get-put_at}
use hermes_event_server.Base.Action.{first_admin_bootstrap_error, ok, err}
use hermes_event_server.Models.{Time, PairingCode, AuditLog, Database, user_key, pairing_key}
use hermes_event_server.Users.{
  PermissionSnapshot, permission_snapshot, active_command_admin_count, or_new_user, may_administer,
}
use hermes_event_server.Users.Count.{count_pos}
use hermes_event_server.Users.Admins.{has_permission-set_rows, or_new_user-key}
use hermes_event_server.Pairing.{pairing_code_hash}
use hermes_event_server.FirstAdmin.{make_admin, as_admin, bootstrap_first_admin}

-- Once made an administrator, a user counts as one.
made_admin_counts :
    (platform openid by : String) (db : Database)
    → 1 ≤ active_command_admin_count platform (make_admin platform openid by db)
unfolding make_admin active_command_admin_count
made_admin_counts platform openid by db =
    let u = as_admin (or_new_user (get user_key (platform, openid) db.users) platform openid) in
    let key : user_key u ≡ (platform, openid) = or_new_user-key platform openid db.users in
    count_pos user_key _ (user_key u) u (put user_key u db.users) (get-put_self user_key u db.users)
      (rw
        (
          has_permission-set_rows (platform, openid) true by ("chat" ∷ "command" ∷ [])
              db.permissions (user_key u) "command",
          key,
        )
        (ground arith))

-- Its snapshot is an administrator's.
pub made_admin_administers :
    (platform openid by : String) (db : Database)
    → may_administer (permission_snapshot platform openid (make_admin platform openid by db)) ≡ true
unfolding make_admin permission_snapshot
made_admin_administers platform openid by db =
    let u = as_admin (or_new_user (get user_key (platform, openid) db.users) platform openid) in
    let key : user_key u ≡ (platform, openid) = or_new_user-key platform openid db.users in
    rw
      (
        get-put_at user_key (platform, openid) u db.users key,
        has_permission-set_rows (platform, openid) true by ("chat" ∷ "command" ∷ []) db.permissions
            (platform, openid) "command",
      )
      (ground arith)

module _ (sha256 upper strip : String → String) where
  pub bootstrap_writes :
      (code platform : String) (now : Time) (db db' : Database) (s : PermissionSnapshot)
      → bootstrap_first_admin sha256 upper strip code platform now db ≡ (ok s, db')
      → (openid : String) × (codes : List PairingCode) × (logs : List AuditLog)
        × (active_command_admin_count platform db ≡ 0)
        × (db' ≡ record (make_admin platform openid "bootstrap-pairing" db) {
          pairing_codes = codes;
          audit_logs = logs;
        })
        × (s ≡ permission_snapshot platform openid db')
  unfolding bootstrap_first_admin
  bootstrap_writes code platform now db db' s h =
      elim (Option-cases
        (get pairing_key (pairing_code_hash sha256 upper (upper (strip code))) db.pairing_codes)) [
          | inl e ↦ absurd (ground arith)
          | inr (row, e) ↦ (
            row.openid,
            db'.pairing_codes,
            db'.audit_logs,
            ground arith,
            ground arith,
            ground arith,
          )
        ]

  refuse_later :
      (code platform : String) (now : Time) (db : Database)
      → 1 ≤ active_command_admin_count platform db
      → bootstrap_first_admin sha256 upper strip code platform now db
        ≡ (err first_admin_bootstrap_error, db)
  unfolding bootstrap_first_admin
  refuse_later code platform now db h = ground arith

  -- After a bootstrap that is not refused, which found no active administrator with command permission
  -- on the platform, there is one; the result is an administrator's snapshot; and every later
  -- bootstrap of the platform on that database, with any code and at any time, is refused and writes
  -- nothing.
  pub bootstrap_once :
      (code code' platform : String) (now now' : Time) (db db' : Database) (s : PermissionSnapshot)
      → bootstrap_first_admin sha256 upper strip code platform now db ≡ (ok s, db')
      → (active_command_admin_count platform db ≡ 0)
        × (1 ≤ active_command_admin_count platform db')
        × (may_administer s ≡ true)
        × (bootstrap_first_admin sha256 upper strip code' platform now' db'
            ≡ (err first_admin_bootstrap_error, db'))
  unfolding active_command_admin_count permission_snapshot
  bootstrap_once code code' platform now now' db db' s h =
      let (openid, codes, logs, none_before, e, snapshot) =
        bootstrap_writes code platform now db db' s h in
      let counted : 1 ≤ active_command_admin_count platform db' =
        rw e (made_admin_counts platform openid "bootstrap-pairing" db) in
      (
        none_before,
        counted,
        rw (snapshot, e) (made_admin_administers platform openid "bootstrap-pairing" db),
        refuse_later code' platform now' db' counted,
      )
