-- ===== src/Models.antt =====
-- The tables of src/eventserver/db/models.py, and the values of src/eventserver/core/models.py.
-- A time is a number of microseconds since `datetime.min`, UTC. Of the timestamps that every row has
-- only those that the program reads are kept (`Delivery.created_at`).
use hermes_event_server.Base.{ℕ, ◌*◌, String, Bool, Option, List, []}
use hermes_event_server.Base.Int.{pos}
use hermes_event_server.Json.{Json, Fields, str, int, dict, end, field}

abbrev pub Time : Type 0
Time = ℕ

-- `timedelta(seconds=n)`
abbrev pub seconds : ℕ → Time
seconds n = n * 1_000_000

pub data Role : Type 0 where
  user admin : Role

pub data AccountStatus : Type 0 where
  active blocked : AccountStatus

pub record User : Type 0 where
  pub platform : String
  pub openid : String
  pub role : Role
  pub account_status : AccountStatus
  pub display_name : Option String

pub record UserPermission : Type 0 where
  pub platform : String
  pub openid : String
  pub permission_key : String
  pub granted : Bool
  pub granted_by : Option String

pub record EventType : Type 0 where
  pub event_key : String
  pub display_name : String
  pub description : String
  pub schema_version : ℕ
  pub payload_schema : Fields
  pub enabled : Bool
  pub subscribable : Bool
  pub deprecated_at : Option Time
  pub match_key_field : Option String
  pub match_key_options : List Json
  pub match_keys_required : Bool

pub record EventPublisher : Type 0 where
  pub publisher_key : String
  pub token_hash : String
  pub allowed_event_prefixes : List String
  pub description : String
  pub enabled : Bool

pub record EventAlias : Type 0 where
  pub alias_key : String
  pub event_key : String

pub record ProviderInstance : Type 0 where
  pub provider_instance_id : String
  pub provider_key : String
  pub capability : String
  pub config : Fields
  pub enabled : Bool
  pub interval_seconds : Option ℕ
  pub next_run_at : Option Time

pub record ProviderCheckpoint : Type 0 where
  pub provider_instance_id : String
  pub cursor : Fields
  pub last_identity : Option String
  pub state_hash : Option String
  pub state : Option Fields
  pub last_success_at : Option Time
  pub consecutive_failures : ℕ
  pub lease_owner : Option String
  pub lease_until : Option Time

pub record ObservationRecord : Type 0 where
  pub provider_instance_id : String
  pub schema_version : ℕ
  pub identity : String
  pub observed_at : Time
  pub effective_at : Time
  pub expires_at : Option Time
  pub state : Fields
  pub source_metadata : Fields

pub record EventOccurrence : Type 0 where
  pub event_id : String
  pub event_key : String
  pub schema_version : ℕ
  pub dedupe_key : String
  pub occurred_at : Time
  pub subject : Fields
  pub payload : Fields
  pub metadata_json : Fields

pub record Subscription : Type 0 where
  pub platform : String
  pub openid : String
  pub event_key : String
  pub locale : String
  pub match_keys : List String

pub data DeliveryStatus : Type 0 where
  pending leased retry sent dead : DeliveryStatus

pub record Delivery : Type 0 where
  pub delivery_id : String
  pub event_id : String
  pub event_key : String
  pub platform : String
  pub openid : String
  pub message : Fields
  pub status : DeliveryStatus
  pub attempts : ℕ
  pub next_attempt_at : Time
  pub lease_owner : Option String
  pub lease_token_hash : Option String
  pub lease_until : Option Time
  pub sent_at : Option Time
  pub platform_message_id : Option String
  pub last_error_code : Option String
  pub created_at : Time

pub record PairingCode : Type 0 where
  pub code_hash : String
  pub platform : String
  pub openid : String
  pub expires_at : Time
  pub approved_by : Option String
  pub approved_at : Option Time
  pub consumed_at : Option Time
  pub failed_attempts : ℕ

pub record AuditLog : Type 0 where
  pub actor_platform : Option String
  pub actor_openid_masked : Option String
  pub target_type : String
  pub target_id_masked : Option String
  pub action : String
  pub result : String
  pub request_id : Option String
  pub details : Fields

-- core/models.py
pub record Observation : Type 0 where
  pub provider_key : String
  pub schema_version : ℕ
  pub identity : String
  pub observed_at : Time
  pub effective_at : Time
  pub expires_at : Option Time
  pub state : Fields
  pub source_metadata : Fields

pub record DomainEvent : Type 0 where
  pub event_id : String
  pub event_key : String
  pub schema_version : ℕ
  pub dedupe_key : String
  pub occurred_at : Time
  pub subject : Fields
  pub payload : Fields
  pub metadata : Fields

pub record DeliveryMessage : Type 0 where
  pub title : String
  pub text : String
  pub extra : Fields
  pub template_key : String
  pub template_version : ℕ

-- `message.model_dump(mode="json")`
unfoldable pub model_dump : DeliveryMessage → Fields
model_dump m = field "title" (str m.title) (
    field "text" (str m.text) (
      field "data" (dict m.extra) (
        field "template_key" (str m.template_key)
          (field "template_version" (int (pos m.template_version)) end))))

-- What a transaction reads and writes.
pub record Database : Type 0 where
  pub users : List User
  pub permissions : List UserPermission
  pub event_types : List EventType
  pub aliases : List EventAlias
  pub publishers : List EventPublisher
  pub instances : List ProviderInstance
  pub checkpoints : List ProviderCheckpoint
  pub observations : List ObservationRecord
  pub occurrences : List EventOccurrence
  pub subscriptions : List Subscription
  pub deliveries : List Delivery
  pub pairing_codes : List PairingCode
  pub audit_logs : List AuditLog

abbrev pub empty_database : Database
empty_database = record {
  users = [];
  permissions = [];
  event_types = [];
  aliases = [];
  publishers = [];
  instances = [];
  checkpoints = [];
  observations = [];
  occurrences = [];
  subscriptions = [];
  deliveries = [];
  pairing_codes = [];
  audit_logs = [];
}

-- Primary keys.
abbrev pub user_key : User → String × String
user_key u = (u.platform, u.openid)

abbrev pub permission_key : UserPermission → (String × String) × String
permission_key p = ((p.platform, p.openid), p.permission_key)

abbrev pub event_type_key : EventType → String
event_type_key t = t.event_key

abbrev pub alias_key : EventAlias → String
alias_key a = a.alias_key

abbrev pub instance_key : ProviderInstance → String
instance_key p = p.provider_instance_id

abbrev pub checkpoint_key : ProviderCheckpoint → String
checkpoint_key c = c.provider_instance_id

abbrev pub subscription_key : Subscription → (String × String) × String
subscription_key s = ((s.platform, s.openid), s.event_key)

abbrev pub delivery_key : Delivery → String
delivery_key d = d.delivery_id

abbrev pub pairing_key : PairingCode → String
pairing_key c = c.code_hash

abbrev pub publisher_key : EventPublisher → String
publisher_key p = p.publisher_key
