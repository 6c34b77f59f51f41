-- ===== src/Api/SubscriptionRoutes.antt =====
-- src/eventserver/api/subscriptions.py: the users' subscription requests.
use hermes_event_server.Base.{ℕ, String, Bool, false, Option, none, some, List, map, if◌then◌else◌}
use hermes_event_server.Base.Equality.{string_eq, nat_eq, pair_eq}
use hermes_event_server.Base.Action.{
  Error, authorization_error, event_not_found_error, invalid_match_key_error, Action, pure, ◌>>=◌,
  ◌>>◌,
}
use hermes_event_server.Json.{Fields, str, list, end, field, str_items}
use hermes_event_server.Models.{Subscription, AuditLog, Database}
use hermes_event_server.Users.{mask_identifier, add_audit}
use hermes_event_server.Subscriptions.{Subscribed, list_subscriptions, subscribe, unsubscribe}
use hermes_event_server.Api.{Reply, handle}

pub record SubscriptionResponse : Type 0 where
  pub event_key : String
  pub locale : String
  pub match_keys : List String
  pub created : Option Bool
  pub updated : Bool

abbrev pub listed : Subscription → SubscriptionResponse
listed s = record {
  event_key = s.event_key;
  locale = s.locale;
  match_keys = s.match_keys;
  created = none;
  updated = false;
}

unfoldable pub get_subscriptions : String → String → Database → List SubscriptionResponse
get_subscriptions openid platform db = map listed (list_subscriptions platform openid db)

abbrev pub subscribe_errors : Error → Option ℕ
subscribe_errors authorization_error = some 403
subscribe_errors invalid_match_key_error = some 400
subscribe_errors event_not_found_error = some 404
subscribe_errors _ = none

abbrev pub subscription_entry : String → String → String → String → String → Fields → AuditLog
subscription_entry platform openid action result request_id details = record {
  actor_platform = some platform;
  actor_openid_masked = mask_identifier (some openid);
  target_type = "subscription";
  target_id_masked = mask_identifier (some openid);
  action = action;
  result = result;
  request_id = some request_id;
  details = details;
}

abbrev pub subscribed_response : Subscribed → SubscriptionResponse
subscribed_response r = record {
  event_key = r.item.event_key;
  locale = r.item.locale;
  match_keys = r.item.match_keys;
  created = some r.created;
  updated = r.updated;
}

abbrev pub subscribed_details : Subscribed → Fields
subscribed_details r =
    field "event_key" (str r.item.event_key)
      (field "match_keys" (list (str_items r.item.match_keys)) end)

-- `body.match_keys` is a list, empty by default.
unfoldable pub subscribe_audited :
    String → String → String → List String → String → Action Database SubscriptionResponse
subscribe_audited openid platform event_key match_keys request_id = do
  r ← subscribe platform openid event_key (some match_keys)
  add_audit (
      subscription_entry platform openid (if r.created then "subscribe" else "update_subscription")
        "success" request_id (subscribed_details r))
  pure (subscribed_response r)

unfoldable pub add_subscription :
    String
    → String
    → String
    → List String
    → String
    → Database
    → Reply SubscriptionResponse × Database
add_subscription openid platform event_key match_keys request_id =
    handle subscribe_errors (subscribe_audited openid platform event_key match_keys request_id)

abbrev pub unsubscribe_errors : Error → Option ℕ
unsubscribe_errors authorization_error = some 403
unsubscribe_errors _ = none

unfoldable pub unsubscribe_audited : String → String → String → String → Action Database Bool
unsubscribe_audited openid platform event_key request_id = do
  deleted ← unsubscribe platform openid event_key
  add_audit (
      subscription_entry platform openid "unsubscribe" (if deleted then "success" else "noop")
        request_id (field "event_key" (str event_key) end))
  pure deleted

unfoldable pub remove_subscription :
    String → String → String → String → Database → Reply Bool × Database
remove_subscription openid platform event_key request_id =
    handle unsubscribe_errors (unsubscribe_audited openid platform event_key request_id)
