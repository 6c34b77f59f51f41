-- ===== src/Tests/Services.antt =====
-- Runs of the subscription and pairing services.
use hermes_event_server.Base.{
  ◌≤◌, String, ◌≡◌, refl, true, false, Option, none, some, List, [], ◌∷◌, arith, sort_by,
}
use hermes_event_server.Base.Equality.{string_eq, nat_eq, pair_eq, string_discrete}
use hermes_event_server.Base.Table.{get, put}
use hermes_event_server.Base.Action.{Error, first_admin_bootstrap_error, ok, err}
use hermes_event_server.Json.{str, dict, end, field}
use hermes_event_server.Models.{
  user, admin, active, EventType, PairingCode, Database, empty_database,
}
use hermes_event_server.Users.{
  PermissionSnapshot, permission_row, new_user, permission_snapshot, may_administer,
  active_command_admin_count, set_permissions,
}
use hermes_event_server.Subscriptions.{
  Subscribed, subscribe, unsubscribe, new_subscription, find_event,
}
use hermes_event_server.Subscriptions.Subscribe.{subscribe_again}
use hermes_event_server.Subscriptions.Effect.{IsStored, subscribe-IsStored}
use hermes_event_server.Pairing.{Approval, approve_pairing_code, new_code, create_pairing_code}
use hermes_event_server.Pairing.Create.{create-approve}
use hermes_event_server.Pairing.Approve.{approve_once}
use hermes_event_server.Pairing.Effect.{IsPaired, approve-IsPaired}
use hermes_event_server.FirstAdmin.{bootstrap_first_admin}
use hermes_event_server.FirstAdmin.Once.{bootstrap_once}
use Prim.Native.String

abbrev sortie : EventType
sortie = record {
  event_key = "warframe.sortie";
  display_name = "";
  description = "";
  schema_version = 1;
  payload_schema = end;
  enabled = true;
  subscribable = true;
  deprecated_at = none;
  match_key_field = some "node";
  match_key_options = dict (field "key" (str "earth") end) ∷ [];
  match_keys_required = true;
}

abbrev services_db : Database
services_db = record empty_database {
  users = record (new_user "qq" "op") { role = admin } ∷ new_user "qq" "amy" ∷ [];
  permissions =
      permission_row ("qq", "op") true "sys" "command"
      ∷ permission_row ("qq", "amy") true "op" "command"
      ∷ [];
  event_types = sortie ∷ [];
  aliases = record { alias_key = "sortie"; event_key = "warframe.sortie" } ∷ [];
}

abbrev watched : Option (List String)
watched = some ("earth" ∷ [])

abbrev first_subscribed : Subscribed
first_subscribed = record {
  item = new_subscription "qq" "amy" "warframe.sortie" ("earth" ∷ []);
  created = true;
  updated = false;
}

abbrev after_subscribe : Database
after_subscribe = (subscribe "qq" "amy" "sortie" watched services_db).1

subscribe_run :
    subscribe "qq" "amy" "sortie" watched services_db ≡ (ok first_subscribed, after_subscribe)
unfolding subscribe hermes_event_server.Subscriptions.require_command permission_snapshot get
    pair_eq string_discrete hermes_event_server.Users.has_permission
    hermes_event_server.Subscriptions.resolve_event find_event
    hermes_event_server.Subscriptions.requested_keys
    hermes_event_server.MatchKeys.normalize_match_keys hermes_event_server.MatchKeys.collect_keys
    hermes_event_server.MatchKeys.is_match_key hermes_event_server.MatchKeys.match_rest
    hermes_event_server.MatchKeys.ensure_match_keys_allowed sort_by
    hermes_event_server.MatchKeys.allowed_match_keys
subscribe_run = refl

subscribe-IsStored_example :
    IsStored "qq" "amy" "sortie" watched services_db after_subscribe first_subscribed
subscribe-IsStored_example =
    subscribe-IsStored "qq" "amy" "sortie" watched first_subscribed services_db after_subscribe
      subscribe_run

subscribe_again_example : subscribe "qq" "amy" "sortie" watched after_subscribe ≡ (
  ok (record { item = first_subscribed.item; created = false; updated = false }),
  after_subscribe,
)
subscribe_again_example =
    subscribe_again "qq" "amy" "sortie" watched first_subscribed services_db after_subscribe
      subscribe_run

abbrev subscribed_db : Database
subscribed_db = record services_db { subscriptions = first_subscribed.item ∷ [] }

abbrev after_unsubscribe : Database
after_unsubscribe = (unsubscribe "qq" "amy" "sortie" subscribed_db).1

abbrev sha256 : String → String
sha256 s = String.◌++◌ "sha256:" s

-- On codes that are upper case and have no blanks.
abbrev same_text : String → String
same_text s = s

abbrev pairing_db : Database
pairing_db = record services_db {
  pairing_codes = new_code sha256 same_text "ABCDEFGH" "qq" "bob" 10 0 ∷ [];
}

abbrev approval : Approval
approval = record {
  code = "ABCDEFGH";
  permissions = "command" ∷ [];
  operator_openid = "op";
  platform = "qq";
  request_id = none;
}

abbrev approved_bob : PermissionSnapshot
approved_bob = record {
  platform = "qq";
  openid = "bob";
  account_status = some active;
  role = user;
  chat = false;
  command = true;
}

abbrev after_approval : Database
after_approval = (approve_pairing_code sha256 same_text approval 5 pairing_db).1

approval_run :
    approve_pairing_code sha256 same_text approval 5 pairing_db ≡ (ok approved_bob, after_approval)
unfolding approve_pairing_code hermes_event_server.Users.require_admin permission_snapshot get
    pair_eq string_discrete hermes_event_server.Users.has_permission
    hermes_event_server.Pairing.pairing_code_hash set_permissions
    hermes_event_server.Users.get_or_add_user hermes_event_server.Users.revokes_last_admin put
    hermes_event_server.Users.set_rows
approval_run = refl

approve-IsPaired_example :
    IsPaired sha256 same_text approval 5 pairing_db after_approval approved_bob
approve-IsPaired_example =
    approve-IsPaired sha256 same_text approval 5 pairing_db after_approval approved_bob approval_run

approve_once_example :
    (e : Error) × (approve_pairing_code sha256 same_text approval 6 after_approval
      ≡ (err e, after_approval))
approve_once_example =
    approve_once sha256 same_text approval approval 5 6 pairing_db after_approval approved_bob
      approval_run refl

abbrev empty_platform : Database
empty_platform = record empty_database {
  pairing_codes = new_code sha256 same_text "ABCDEFGH" "qq" "bob" 10 0 ∷ [];
}

abbrev first_admin : PermissionSnapshot
first_admin = record {
  platform = "qq";
  openid = "bob";
  account_status = some active;
  role = admin;
  chat = true;
  command = true;
}

abbrev after_bootstrap : Database
after_bootstrap =
    (bootstrap_first_admin sha256 same_text same_text "ABCDEFGH" "qq" 5 empty_platform).1

bootstrap_run :
    bootstrap_first_admin sha256 same_text same_text "ABCDEFGH" "qq" 5 empty_platform
    ≡ (ok first_admin, after_bootstrap)
unfolding bootstrap_first_admin active_command_admin_count get string_discrete
    hermes_event_server.Pairing.pairing_code_hash permission_snapshot
    hermes_event_server.FirstAdmin.make_admin put pair_eq hermes_event_server.Users.has_permission
    hermes_event_server.Users.set_rows
bootstrap_run = refl

bootstrap_once_example :
    (active_command_admin_count "qq" empty_platform ≡ 0)
    × (1 ≤ active_command_admin_count "qq" after_bootstrap)
    × (may_administer first_admin ≡ true)
    × (bootstrap_first_admin sha256 same_text same_text "HGFEDCBA" "qq" 6 after_bootstrap
        ≡ (err first_admin_bootstrap_error, after_bootstrap))
bootstrap_once_example =
    bootstrap_once sha256 same_text same_text "ABCDEFGH" "HGFEDCBA" "qq" 5 6 empty_platform
      after_bootstrap first_admin bootstrap_run

abbrev new_row : PairingCode
new_row = new_code sha256 same_text "AAAAAAAA" "qq" "bob" 10 0

abbrev after_create : Database
after_create = record services_db { pairing_codes = new_row ∷ [] }

create_run :
    create_pairing_code sha256 same_text (λ i. "A") "qq" "bob" 10 0 services_db
    ≡ (ok ("AAAAAAAA", new_row), after_create)
unfolding create_pairing_code get hermes_event_server.Pairing.drawn put
create_run = refl

op_administers : may_administer (permission_snapshot "qq" "op" services_db) ≡ true
unfolding permission_snapshot get pair_eq string_discrete hermes_event_server.Users.has_permission
op_administers = refl

create-approve_example :
    (s : PermissionSnapshot) × ((approve_pairing_code sha256 same_text
        (record {
          code = "AAAAAAAA";
          permissions = "command" ∷ [];
          operator_openid = "op";
          platform = "qq";
          request_id = none;
        })
        5
        after_create).0
      ≡ ok s)
unfolding string_discrete
create-approve_example =
    create-approve sha256 same_text (λ i. "A") "qq" "bob" 10 0 5 "AAAAAAAA" new_row ("command" ∷ [])
      "op" none services_db after_create create_run (omega arith) refl op_administers
