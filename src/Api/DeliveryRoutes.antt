-- ===== src/Api/DeliveryRoutes.antt =====
-- src/eventserver/api/deliveries.py: the requests of messaging adapters. `digest` is the token digest.
pub mod Refines
use hermes_event_server.Base.{ℕ, String, Bool, Option, none, some, List, nat_beq, if◌then◌else◌}
use hermes_event_server.Base.Equality.{string_eq, nat_eq, pair_eq}
use hermes_event_server.Base.Action.{Error, lease_conflict_error, Action, pure, ◌>>=◌}
use hermes_event_server.Models.{Time, DeliveryStatus, Delivery}
use hermes_event_server.Api.{Reply, handle}
use hermes_event_server.Outbox.{ClaimedDelivery, claim, ack, fail}

-- The settings that the handlers read.
pub record DeliverySettings : Type 0 where
  pub delivery_max_attempts : ℕ
  pub delivery_default_lease_seconds : ℕ

pub record DeliveryClaimRequest : Type 0 where
  pub worker_id : String
  pub platform : String
  pub limit : ℕ
  pub lease_seconds : Option ℕ

-- `body.lease_seconds or settings.delivery_default_lease_seconds`
abbrev pub lease_seconds_or : Option ℕ → ℕ → ℕ
lease_seconds_or none default = default
lease_seconds_or (some n) default = if nat_beq n 0 then default else n

pub record DeliveryStatusResponse : Type 0 where
  pub delivery_id : String
  pub status : DeliveryStatus
  pub attempts : ℕ
  pub next_attempt_at : Time

-- `_status`
abbrev pub delivery_status : Delivery → DeliveryStatusResponse
delivery_status row = record {
  delivery_id = row.delivery_id;
  status = row.status;
  attempts = row.attempts;
  next_attempt_at = row.next_attempt_at;
}

abbrev pub delivery_errors : Error → Option ℕ
delivery_errors lease_conflict_error = some 409
delivery_errors _ = none

abbrev pub answered :
    Action (List Delivery) Delivery → Action (List Delivery) DeliveryStatusResponse
answered m = do row ← m; pure (delivery_status row)

module _ (digest : String → String) (settings : DeliverySettings) where
  unfoldable pub claim_deliveries :
      (String → Bool)
      → DeliveryClaimRequest
      → Time
      → (ℕ → String)
      → List Delivery
      → Reply (List ClaimedDelivery) × List Delivery
  claim_deliveries locked body now tokens =
      handle (λ e. none)
        (claim digest locked
          (record {
            worker_id = body.worker_id;
            platform = body.platform;
            limit = body.limit;
            lease_seconds =
                lease_seconds_or body.lease_seconds settings.delivery_default_lease_seconds;
          })
          now tokens)

  unfoldable pub ack_delivery :
      String
      → String
      → Option Time
      → Option String
      → Time
      → List Delivery
      → Reply DeliveryStatusResponse × List Delivery
  ack_delivery id token sent_at message_id now =
      handle delivery_errors (answered (ack digest id token sent_at message_id now))

  unfoldable pub fail_delivery :
      String
      → String
      → String
      → Bool
      → Time
      → List Delivery
      → Reply DeliveryStatusResponse × List Delivery
  fail_delivery id token code retryable now =
      handle delivery_errors
        (answered (fail digest settings.delivery_max_attempts id token code retryable now))
