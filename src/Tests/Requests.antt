-- ===== src/Tests/Requests.antt =====
-- Runs of the handlers.
use hermes_event_server.Base.{String, ◌≡◌, refl, true, false, none, some, List, [], ◌∷◌, arith}
use hermes_event_server.Base.Equality.{string_eq, nat_eq, pair_eq, string_discrete}
use hermes_event_server.Base.Table.{get}
use hermes_event_server.Json.{end}
use hermes_event_server.Models.{Time, admin, EventType, EventPublisher, Database, empty_database}
use hermes_event_server.Users.{permission_row, new_user, active_command_admin_count}
use hermes_event_server.Publication.{Context}
use hermes_event_server.Api.UserRoutes.{
  UserRequest, revokes, sets_role, IsGoverned, serve_all, serve_all-IsGoverned,
}
use hermes_event_server.Api.PublishRoutes.{PublishEventRequest, publish_event}
use hermes_event_server.Api.PublishRoutes.Outcome.{Outcome, publish_event-Outcome}

abbrev requests_db : Database
requests_db = record empty_database {
  users = record (new_user "qq" "op") { role = admin } ∷ [];
  permissions = permission_row ("qq", "op") true "sys" "command" ∷ [];
  publishers = [];
}

-- The only administrator revokes and demotes themselves, in vain.
abbrev requests : List UserRequest
requests =
    revokes (record {
      openid = "op";
      permissions = "command" ∷ [];
      operator_openid = "op";
      request_id = "r1";
    })
    ∷ sets_role "op" "user" "op" "r2"
    ∷ []

one_admin : active_command_admin_count "qq" requests_db ≡ 1
unfolding active_command_admin_count string_discrete hermes_event_server.Users.has_permission get
    pair_eq
one_admin = refl

requests_db-IsGoverned : IsGoverned "qq" requests_db
requests_db-IsGoverned = record { keyed = (tt, tt); someone = rw one_admin (omega arith) }

serve_all-IsGoverned_example : IsGoverned "qq" (serve_all "qq" requests requests_db)
serve_all-IsGoverned_example = serve_all-IsGoverned "qq" requests requests_db requests_db-IsGoverned

abbrev isoformat : Time → String
isoformat t = "2026-01-01T00:00:00+00:00"

abbrev context : Context
context = record {
  matches = (λ p v. none);
  repr = (λ v. "");
  uuids = (λ j. "d");
  now = 7;
  others = [];
}

abbrev publisher : EventPublisher
publisher = record {
  publisher_key = "demo";
  token_hash = "h";
  allowed_event_prefixes = "demo." ∷ [];
  description = "";
  enabled = true;
}

abbrev body : PublishEventRequest
body = record {
  event_key = "demo.timer.done";
  schema_version = 1;
  dedupe_key = "k";
  occurred_at = 5;
  notify_at = some 60_000_000;
  subject = end;
  payload = end;
  metadata = end;
  messages =
      (
        "default",
        record { title = "t"; text = "x"; extra = end; template_key = "k"; template_version = 1 },
      )
      ∷ [];
}

abbrev done_type : EventType
done_type = record {
  event_key = "demo.timer.done";
  display_name = "";
  description = "";
  schema_version = 1;
  payload_schema = end;
  enabled = true;
  subscribable = true;
  deprecated_at = none;
  match_key_field = none;
  match_key_options = [];
  match_keys_required = false;
}

abbrev publish_db : Database
publish_db = record requests_db { event_types = done_type ∷ [] }

publish_event-Outcome_example :
    Outcome isoformat 3600 context publisher body "e1" "r1" 7 publish_db
      (publish_event isoformat 3600 context publisher body "e1" "r1" 7 publish_db)
publish_event-Outcome_example =
    publish_event-Outcome isoformat 3600 context publisher body "e1" "r1" 7 publish_db
