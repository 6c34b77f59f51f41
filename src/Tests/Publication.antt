-- ===== src/Tests/Publication.antt =====
-- Runs of a publication, of the validator and of the match keys.
use hermes_event_server.Base.{
  ℕ, zero, suc, String, ◌≡◌, refl, sym, ap, ◌∙◌, ◌↔◌, Bool, true, false, Option, none, some, List,
  [], ◌∷◌, ◌++◌, sort_by, length,
}
use hermes_event_server.Base.Equality.{string_eq, nat_eq, pair_eq, string_discrete, distinct}
use hermes_event_server.Base.Table.{get, IsKeyed}
use hermes_event_server.Base.Action.{ok}
use hermes_event_server.Json.{Fields, str, list, dict, nil, cons, end, field}
use hermes_event_server.Models.{
  EventType, Delivery, DomainEvent, DeliveryMessage, Database, empty_database, event_type_key,
  subscription_key,
}
use hermes_event_server.Schema.{Verdict, accepted, validate, validate_payload}
use hermes_event_server.Schema.Meaning.{Conforms, validate-Conforms}
use hermes_event_server.MatchKeys.{normalize_match_keys}
use hermes_event_server.MatchKeys.Normal.{IsNormal, normalize_match_keys-IsNormal}
use hermes_event_server.Users.{new_user, permission_row}
use hermes_event_server.Publication.{
  Context, PublicationResult, Messages, publish, occurrence_of, occurrence_taken, find_occurrence,
  message_for,
}
use hermes_event_server.Publication.Dedupe.{IsChecked, publish_again}
use hermes_event_server.Publication.Insert.{deliveries_made, publish_delivers}
use hermes_event_server.Base.Text.{text_length}

-- A pattern engine that knows no pattern.
abbrev no_pattern : String → String → Option Bool
no_pattern p v = none

abbrev schema : Fields
schema = field "type" (str "object") (field "required" (list (cons (str "node") nil)) end)

abbrev payload : Fields
payload = field "node" (str "earth") end

schema_accepts : validate no_pattern (dict schema) (dict payload) ≡ accepted
unfolding validate hermes_event_server.Schema.check_type string_discrete
    hermes_event_server.Schema.any_type hermes_event_server.Schema.has_type
    hermes_event_server.Schema.check_const hermes_event_server.Schema.check_enum
    hermes_event_server.Schema.check_value hermes_event_server.Schema.check_object
    hermes_event_server.Schema.run_checks
schema_accepts = refl

validate-Conforms_example :
    (validate no_pattern (dict schema) (dict payload) ≡ accepted)
    ↔ Conforms no_pattern schema payload
validate-Conforms_example = validate-Conforms no_pattern schema payload

normalize_run : normalize_match_keys (some ("b" ∷ "a" ∷ "b" ∷ [])) ≡ ok ("a" ∷ "b" ∷ [])
unfolding normalize_match_keys hermes_event_server.MatchKeys.collect_keys
    hermes_event_server.MatchKeys.is_match_key hermes_event_server.MatchKeys.match_rest
    string_discrete sort_by
normalize_run = refl

normalize_match_keys-IsNormal_example : IsNormal ("b" ∷ "a" ∷ "b" ∷ []) ("a" ∷ "b" ∷ [])
normalize_match_keys-IsNormal_example =
    normalize_match_keys-IsNormal ("b" ∷ "a" ∷ "b" ∷ []) ("a" ∷ "b" ∷ []) normalize_run

-- The identifiers "", "*", "**", ..
abbrev unary : ℕ → String
unary zero = String.[]
unary (suc n) = String.◌∷◌ "*" (unary n)

text_length-unary : (n : ℕ) → text_length (unary n) ≡ n
text_length-unary zero = refl
text_length-unary (suc n) = ap suc (text_length-unary n)

unary_fresh : (i j : ℕ) → unary i ≡ unary j → i ≡ j
unary_fresh i j h = sym (text_length-unary i) ∙ ap text_length h ∙ text_length-unary j

abbrev context : Context
context = record { matches = no_pattern; repr = (λ v. ""); uuids = unary; now = 100; others = [] }

abbrev event : DomainEvent
event = record {
  event_id = "e1";
  event_key = "warframe.sortie";
  schema_version = 1;
  dedupe_key = "today";
  occurred_at = 90;
  subject = end;
  payload = payload;
  metadata = end;
}

abbrev sortie : EventType
sortie = record {
  event_key = "warframe.sortie";
  display_name = "";
  description = "";
  schema_version = 1;
  payload_schema = schema;
  enabled = true;
  subscribable = true;
  deprecated_at = none;
  match_key_field = none;
  match_key_options = [];
  match_keys_required = false;
}

abbrev text : DeliveryMessage
text = record {
  title = "Sortie";
  text = "earth";
  extra = end;
  template_key = "sortie";
  template_version = 1;
}

abbrev messages : Messages
messages = ("default", text) ∷ []

abbrev publication_db : Database
publication_db = record empty_database {
  users = new_user "qq" "amy" ∷ new_user "qq" "bob" ∷ [];
  permissions = permission_row ("qq", "amy") true "op" "command" ∷ [];
  event_types = sortie ∷ [];
  subscriptions =
      record {
        platform = "qq";
        openid = "amy";
        event_key = "warframe.sortie";
        locale = "zh-CN";
        match_keys = [];
      }
      ∷ record {
        platform = "qq";
        openid = "bob";
        event_key = "warframe.sortie";
        locale = "zh-CN";
        match_keys = [];
      }
      ∷ [];
}

subscriptions-IsKeyed : IsKeyed subscription_key publication_db.subscriptions
unfolding string_discrete
subscriptions-IsKeyed = (
  ((λ p. distinct "bob" "amy" refl (ap (λ (k : (String × String) × String). k.0.1) p)), tt),
  (tt, tt),
)

payload_accepted : validate_payload no_pattern schema payload ≡ accepted
unfolding validate_payload validate hermes_event_server.Schema.check_type string_discrete
    hermes_event_server.Schema.any_type hermes_event_server.Schema.has_type
    hermes_event_server.Schema.check_const hermes_event_server.Schema.check_enum
    hermes_event_server.Schema.check_value hermes_event_server.Schema.check_object
    hermes_event_server.Schema.run_checks
payload_accepted = refl

sortie_known : get event_type_key "warframe.sortie" publication_db.event_types ≡ some sortie
unfolding get string_discrete
sortie_known = refl

message_found : message_for "default" messages ≡ some text
unfolding message_for string_discrete
message_found = refl

abbrev event_checks : IsChecked context event messages none publication_db
event_checks = record {
  event_type = sortie;
  known = sortie_known;
  enabled = refl;
  version = refl;
  payload = payload_accepted;
  default = text;
  has_default = message_found;
}

event_unstored : find_occurrence "warframe.sortie" "today" publication_db.occurrences ≡ none
unfolding find_occurrence
event_unstored = refl

event_untaken : occurrence_taken event (context.others ++ publication_db.occurrences) ≡ false
unfolding occurrence_taken
event_untaken = refl

abbrev made : List Delivery
made = deliveries_made context event messages none sortie text publication_db

abbrev first_result : PublicationResult
first_result = record { event_id = "e1"; created = true; deliveries_created = length made }

abbrev after_publication : Database
after_publication = record publication_db {
  occurrences = occurrence_of event ∷ [];
  deliveries = made;
}

publish_run :
    publish context event messages none publication_db ≡ (ok first_result, after_publication)
publish_run =
    (publish_delivers context event messages none publication_db event_checks event_unstored
      event_untaken unary_fresh subscriptions-IsKeyed tt).0

made_once : length made ≡ 1
unfolding hermes_event_server.Publication.deliver hermes_event_server.Publication.is_recipient
    string_discrete get pair_eq hermes_event_server.Users.has_permission
    hermes_event_server.MatchKeys.recipient_matches
made_once = refl

publish_again_example :
    ((publish context event messages none after_publication).1 ≡ after_publication)
    × ((r' : PublicationResult)
        → (publish context event messages none after_publication).0 ≡ ok r'
        → r' ≡ record { event_id = "e1"; created = false; deliveries_created = 0 })
publish_again_example =
    publish_again context context event event messages messages none none first_result
      publication_db after_publication publish_run refl refl
