-- ===== src/Outbox.antt =====
-- src/eventserver/deliveries/outbox.py: `claim`, `ack` and `fail` on the table of deliveries.
-- `digest` stands for `hashlib.sha256(..).hexdigest()`. `utc_now()` and the tokens that
-- `secrets.token_urlsafe` returns are arguments; `locked` says which rows other transactions hold.
pub mod Rows
pub mod Lifecycle
pub mod Lease
pub mod Claim
pub mod Handover
pub mod Retry
pub mod Moves
pub mod Stages
use hermes_event_server.Base.{
  ℕ, zero, suc, ◌+◌, ◌-◌, ◌*◌, ◌/◌, ◌%◌, ◌^◌, ◌≤◌, ◌<◌, min, max, String, ◌≡◌, refl, sym, ap, subst,
  ◌∙◌, ◌≢◌, ◌↔◌, ◌⊎◌, inl, inr, Bool, true, false, not, ◌&&◌, ◌||◌, Option, none, some, List, [],
  ◌∷◌, ◌++◌, map, arith, All, is_some, get_or, ltb, leb, nat_beq, if◌then◌else◌, ltb→lt, leb→le,
  Bool-cases, Option-cases, take, select, any, insert_by, sort_by, length, length-append,
  length-take-le, All-take, All-append, All-select, All-select_of, All-insert_by, All-sort_by,
  All-map2,
}
use hermes_event_server.Base.Equality.{
  Eq, ◌==◌, contains, string_eq, nat_eq, pair_eq, string_discrete,
}
use hermes_event_server.Base.Table.{
  get, put, delete, get-put, get-put_self, get-put_ne, get-delete, get_absent, key-get, IsKeyed,
  Found, put-IsKeyed, delete-IsKeyed, select-IsKeyed, take-IsKeyed, sort_by-IsKeyed, rows-Found,
  All-put, All-get, All-delete,
}
use hermes_event_server.Base.Action.{
  Error, lease_conflict_error, authorization_error, last_admin_error, value_error,
  event_not_found_error, match_key_error, invalid_match_key_error, publication_error,
  pairing_code_error, first_admin_bootstrap_error, lookup_error, key_error, runtime_error,
  integrity_error, Result, ok, err, Action, pure, raise, lift, gets, or_raise, modify, raise_if,
  ◌>>=◌, ◌>>◌,
}
use hermes_event_server.Json.{
  Json, Items, Fields, null, bool, int, float, str, list, dict, nil, cons, end, field, get_field,
  has_field, item_list, count_items, keys, str_items, optional_str, number_lt, number_eq, as_number,
}
use hermes_event_server.Models.{
  Time, seconds, Role, user, admin, AccountStatus, active, blocked, User, UserPermission, EventType,
  EventPublisher, EventAlias, ProviderInstance, ProviderCheckpoint, ObservationRecord,
  EventOccurrence, Subscription, DeliveryStatus, pending, leased, retry, sent, dead, Delivery,
  PairingCode, AuditLog, Observation, DomainEvent, DeliveryMessage, model_dump, Database,
  empty_database, user_key, permission_key, event_type_key, alias_key, instance_key, checkpoint_key,
  subscription_key, delivery_key, pairing_key, publisher_key,
}

pub record ClaimedDelivery : Type 0 where
  pub delivery_id : String
  pub lease_token : String
  pub event_id : String
  pub event_key : String
  pub platform : String
  pub openid : String
  pub message : Fields
  pub attempt : ℕ
  pub created_at : Time

-- The keyword arguments of `claim`.
pub record ClaimRequest : Type 0 where
  pub worker_id : String
  pub platform : String
  pub limit : ℕ
  pub lease_seconds : ℕ

abbrev pub Outbox : Type 0 → Type 0
Outbox A = Action (List Delivery) A

-- `Delivery.lease_until < now`: a comparison with NULL is no match.
abbrev pub lapsed : Time → Option Time → Bool
lapsed now none = false
lapsed now (some t) = ltb t now

abbrev pub eligible_at : DeliveryStatus → Time → Option Time → Time → Bool
eligible_at pending next_attempt lease now = leb next_attempt now
eligible_at retry next_attempt lease now = leb next_attempt now
eligible_at leased next_attempt lease now = lapsed now lease
eligible_at sent next_attempt lease now = false
eligible_at dead next_attempt lease now = false

unfoldable pub eligible : Time → Delivery → Bool
eligible now d = eligible_at d.status d.next_attempt_at d.lease_until now

-- `ORDER BY next_attempt_at, created_at`
abbrev pub comes_first : Delivery → Delivery → Bool
comes_first a b =
    ltb a.next_attempt_at b.next_attempt_at
    || (nat_beq a.next_attempt_at b.next_attempt_at && leb a.created_at b.created_at)

abbrev pub matches_claim : (String → Bool) → String → Time → Delivery → Bool
matches_claim locked platform now d =
    (d.platform == platform) && (eligible now d && not (locked d.delivery_id))

unfoldable pub claim_statement : (String → Bool) → String → ℕ → Time → List Delivery → List Delivery
claim_statement locked platform limit now rows =
    take limit (sort_by comes_first (select (matches_claim locked platform now) rows))

unfoldable pub claimed_item : String → Delivery → ClaimedDelivery
claimed_item token row = record {
  delivery_id = row.delivery_id;
  lease_token = token;
  event_id = row.event_id;
  event_key = row.event_key;
  platform = row.platform;
  openid = row.openid;
  message = row.message;
  attempt = row.attempts;
  created_at = row.created_at;
}

abbrev pub clear_lease : Delivery → Delivery
clear_lease row = record row { lease_owner = none; lease_token_hash = none; lease_until = none }

unfoldable pub acked : Option Time → Option String → Time → Delivery → Delivery
acked sent_at message_id now row = clear_lease (record row {
  status = sent;
  sent_at = some (get_or sent_at now);
  platform_message_id = message_id;
})

-- `min(3600, 5 * (2 ** max(0, row.attempts - 1)))`; subtraction on ℕ stops at 0.
unfoldable pub backoff : ℕ → ℕ
backoff attempts = min 3600 (5 * 2 ^ (attempts - 1))

unfoldable pub failed : ℕ → String → Bool → Time → Delivery → Delivery
unfolding backoff
failed max_attempts code retryable now row =
    if retryable && ltb row.attempts max_attempts
    then clear_lease (record row {
      last_error_code = some code;
      status = retry;
      next_attempt_at = now + seconds (backoff row.attempts);
    })
    else clear_lease (record row { last_error_code = some code; status = dead })

module _ (digest : String → String) where
  unfoldable pub lease_row : ClaimRequest → Time → String → Delivery → Delivery
  lease_row r now token row = record row {
    status = leased;
    attempts = row.attempts + 1;
    lease_owner = some r.worker_id;
    lease_token_hash = some (digest token);
    lease_until = some (now + seconds r.lease_seconds);
  }

  -- The loop of `claim` over the selected rows; `tokens i` is the token of the i-th turn.
  unfoldable pub lease_rows :
      ClaimRequest → Time → (ℕ → String) → ℕ → List Delivery → Outbox (List ClaimedDelivery)
  lease_rows r now tokens i [] = pure []
  lease_rows r now tokens i (row ∷ rows) = do
    let held = lease_row r now (tokens i) row
    modify (put delivery_key held)
    rest ← lease_rows r now tokens (suc i) rows
    pure (claimed_item (tokens i) held ∷ rest)

  unfoldable pub claim :
      (String → Bool) → ClaimRequest → Time → (ℕ → String) → Outbox (List ClaimedDelivery)
  claim locked r now tokens = do
    rows ← gets (claim_statement locked r.platform r.limit now)
    lease_rows r now tokens 0 rows

  -- The tests of `_leased` on a row that exists.
  abbrev pub holds_at : DeliveryStatus → Option String → Option Time → String → Time → Bool
  holds_at leased (some hash) (some until) token now = ltb now until && (hash == digest token)
  holds_at leased (some hash) none token now = false
  holds_at leased none until token now = false
  holds_at pending hash until token now = false
  holds_at retry hash until token now = false
  holds_at sent hash until token now = false
  holds_at dead hash until token now = false

  unfoldable pub holds : Delivery → String → Time → Bool
  holds d token now = holds_at d.status d.lease_token_hash d.lease_until token now

  abbrev pub require_lease : Option Delivery → String → Time → Outbox Delivery
  require_lease none token now = raise lease_conflict_error
  require_lease (some row) token now =
      if holds row token now then pure row else raise lease_conflict_error

  -- `_leased`
  unfoldable pub find_leased : String → String → Time → Outbox Delivery
  find_leased id token now = do row ← gets (get delivery_key id); require_lease row token now

  unfoldable pub ack : String → String → Option Time → Option String → Time → Outbox Delivery
  ack id token sent_at message_id now = do
    row ← find_leased id token now
    let done = acked sent_at message_id now row
    modify (put delivery_key done)
    pure done

  unfoldable pub fail : ℕ → String → String → String → Bool → Time → Outbox Delivery
  fail max_attempts id token code retryable now = do
    row ← find_leased id token now
    let done = failed max_attempts code retryable now row
    modify (put delivery_key done)
    pure done
