-- ===== src/Bootstrap/Effect.antt =====
-- What a deployment's bootstrap leaves.
use hermes_event_server.Base.{
  String, ◌≡◌, refl, sym, ap, ◌∙◌, ◌≢◌, ◌⊎◌, inl, inr, true, false, some, List, [], ◌∷◌, map, arith,
  All, Option-cases,
}
use hermes_event_server.Base.Equality.{contains, string_eq, nat_eq, pair_eq, string_discrete}
use hermes_event_server.Base.Table.{get, put, get-put, get-put_ne, key-get}
use hermes_event_server.Base.Action.{ok}
use hermes_event_server.Models.{
  Time, EventType, ProviderInstance, Database, user_key, event_type_key,
}
use hermes_event_server.Users.{may_administer, permission_snapshot, or_new_user}
use hermes_event_server.Users.Admins.{has_permission-set_rows, or_new_user-key}
use hermes_event_server.FirstAdmin.{make_admin, as_admin}
use hermes_event_server.FirstAdmin.Once.{made_admin_administers}
use hermes_event_server.Bootstrap.{
  legacy_event_keys, legacy_provider_keys, retired, retire_row, retire_events, retire_provider,
  make_admins, bootstrap,
}

-- An event type is not enabled under a key.
abbrev pub IsOff : String → List EventType → Type 0
IsOff k types = (t : EventType) → get event_type_key k types ≡ some t → t.enabled ≡ false

retire_row-IsOff :
    (j k : String) (now : Time) (types : List EventType)
    → IsOff k types ⊎ (j ≡ k)
    → IsOff k (retire_row (get event_type_key j types) now types)
unfolding retired
retire_row-IsOff j k now types h t e = elim (Option-cases (get event_type_key j types)) [
  | inl missing ↦ elim h [
    | inl off ↦ off t (rw missing at e)
    | inr same ↦ absurd (ground (arith, missing, e, same))
  ]
  | inr (u, found) ↦
      let w : get event_type_key k (put event_type_key (retired now u) types) ≡ some t =
        rw found at e in
      elim h [
        | inl off ↦ ground (arith, w, get-put event_type_key k (retired now u) types, off t)
        | inr same ↦ ground (
          arith,
          w,
          get-put event_type_key k (retired now u) types,
          key-get event_type_key j u types found,
          same,
        )
      ]
]

retire_events_keeps :
    (ks : List String) (k : String) (now : Time) (types : List EventType)
    → IsOff k types
    → IsOff k (retire_events ks now types)
unfolding retire_events
retire_events_keeps [] k now types h = h
retire_events_keeps (j ∷ ks) k now types h =
    retire_events_keeps ks k now (retire_row (get event_type_key j types) now types)
      (retire_row-IsOff j k now types (inl h))

retire_events-IsOff :
    (ks : List String) (now : Time) (types : List EventType)
    → All (λ k. IsOff k (retire_events ks now types)) ks
unfolding retire_events
retire_events-IsOff [] now types = tt
retire_events-IsOff (k ∷ ks) now types =
    let next = retire_row (get event_type_key k types) now types in
    (
      retire_events_keeps ks k now next (retire_row-IsOff k k now types (inr refl)),
      retire_events-IsOff ks now next,
    )

-- A provider of a legacy key is not enabled.
abbrev pub IsRetired : ProviderInstance → Type 0
IsRetired p = contains legacy_provider_keys p.provider_key ≡ true → p.enabled ≡ false

retire_provider-IsRetired : (p : ProviderInstance) → IsRetired (retire_provider p)
retire_provider-IsRetired p h = ground arith

All-IsRetired : (ps : List ProviderInstance) → All IsRetired (map retire_provider ps)
All-IsRetired [] = tt
All-IsRetired (p ∷ ps) = (retire_provider-IsRetired p, All-IsRetired ps)

-- Another user's snapshot is as before.
same_snapshot :
    (openid other by : String) (db : Database)
    → openid ≢ other
    → permission_snapshot "qqbot" other (make_admin "qqbot" openid by db)
      ≡ permission_snapshot "qqbot" other db
unfolding make_admin permission_snapshot
same_snapshot openid other by db differ =
    let u = as_admin (or_new_user (get user_key ("qqbot", openid) db.users) "qqbot" openid) in
    let key : user_key u ≡ ("qqbot", openid) = or_new_user-key "qqbot" openid db.users in
    let another : user_key u ≢ ("qqbot", other) =
      (λ p. differ (ap (λ (k : String × String). k.1) (sym key ∙ p))) in
    ground (
      arith,
      get-put_ne user_key ("qqbot", other) u db.users another,
      has_permission-set_rows ("qqbot", openid) true by ("chat" ∷ "command" ∷ []) db.permissions
          ("qqbot", other) "chat",
      has_permission-set_rows ("qqbot", openid) true by ("chat" ∷ "command" ∷ []) db.permissions
          ("qqbot", other) "command",
      differ,
    )

-- Every administrator stays one.
make_admin_keeps :
    (openid other by : String) (db : Database)
    → may_administer (permission_snapshot "qqbot" other db) ≡ true
    → may_administer (permission_snapshot "qqbot" other (make_admin "qqbot" openid by db)) ≡ true
make_admin_keeps openid other by db h = elim (string_discrete openid other) [
  | yes same ↦ rw (← same) (made_admin_administers "qqbot" openid by db)
  | no differ ↦ rw (same_snapshot openid other by db differ) h
]

make_admins_keeps :
    (openids : List String) (other : String) (db : Database)
    → may_administer (permission_snapshot "qqbot" other db) ≡ true
    → may_administer (permission_snapshot "qqbot" other (make_admins openids db)) ≡ true
unfolding make_admins
make_admins_keeps [] other db h = h
make_admins_keeps (o ∷ os) other db h =
    make_admins_keeps os other (make_admin "qqbot" o "bootstrap" db)
      (make_admin_keeps o other "bootstrap" db h)

make_admins_administer :
    (openids : List String) (db : Database)
    → All
        (λ o. may_administer (permission_snapshot "qqbot" o (make_admins openids db)) ≡ true)
        openids
unfolding make_admins
make_admins_administer [] db = tt
make_admins_administer (o ∷ os) db =
    let next = make_admin "qqbot" o "bootstrap" db in
    (
      make_admins_keeps os o next (made_admin_administers "qqbot" o "bootstrap" db),
      make_admins_administer os next,
    )

make_admins_rest :
    (openids : List String) (db : Database)
    → ((make_admins openids db).event_types ≡ db.event_types)
      × ((make_admins openids db).instances ≡ db.instances)
unfolding make_admins make_admin
make_admins_rest [] db = (refl, refl)
make_admins_rest (o ∷ os) db = make_admins_rest os (make_admin "qqbot" o "bootstrap" db)

-- After a bootstrap that is not refused every named openid is an active administrator with command
-- permission, no legacy event type is enabled, and no provider instance of a legacy key is.
pub bootstrap_effect :
    (openids : List String) (now : Time) (db db' : Database)
    → bootstrap openids now db ≡ (ok tt, db')
    → All (λ o. may_administer (permission_snapshot "qqbot" o db') ≡ true) openids
      × All (λ k. IsOff k db'.event_types) legacy_event_keys
      × All IsRetired db'.instances
unfolding bootstrap
bootstrap_effect openids now db db' h =
    let start = record db {
      event_types = retire_events legacy_event_keys now db.event_types;
      instances = map retire_provider db.instances;
    } in
    let w : db' ≡ make_admins openids start = ground arith in
    let rest = make_admins_rest openids start in
    rw w (
      make_admins_administer openids start,
      rw rest.0 (retire_events-IsOff legacy_event_keys now db.event_types),
      rw rest.1 (All-IsRetired db.instances),
    )
