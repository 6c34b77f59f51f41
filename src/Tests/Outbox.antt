-- ===== src/Tests/Outbox.antt =====
-- Runs of the outbox: two deliveries, one of them leased by a worker, one sent.
use hermes_event_server.Base.{
  ℕ, ◌≤◌, String, ◌≡◌, refl, Bool, true, false, none, some, List, [], ◌∷◌, map, arith, All, sort_by,
  length,
}
use hermes_event_server.Base.Equality.{string_eq, nat_eq, pair_eq, string_discrete, distinct}
use hermes_event_server.Base.Table.{get, put, IsKeyed}
use hermes_event_server.Base.Action.{ok, err}
use hermes_event_server.Json.{end}
use hermes_event_server.Models.{Time, DeliveryStatus, pending, leased, sent, Delivery, delivery_key}
use hermes_event_server.Outbox.{
  ClaimRequest, ClaimedDelivery, claim, claim_statement, ack, fail, backoff, holds, eligible,
  lease_row, claimed_item,
}
use hermes_event_server.Outbox.Lifecycle.{
  Call, claims, acks, fails, IsSound, IsSoundTable, run, run-IsSoundTable, is_final,
}
use hermes_event_server.Outbox.Lease.{run_final, run_leased}
use hermes_event_server.Outbox.Handover.{IsClaimable, HandsOut, claim-HandsOut}
use hermes_event_server.Outbox.Claim.{claim-ack, Acknowledges}
use hermes_event_server.Outbox.Retry.{FailOutcome, fail_outcome}
use hermes_event_server.Api.DeliveryRoutes.{DeliverySettings, DeliveryClaimRequest}
use hermes_event_server.Api.DeliveryRoutes.Refines.{
  Request, claims_some, acks_one, fails_one, respond_all, answered_count, IsServed,
  respond_all-IsServed,
}
use Prim.Native.String

abbrev digest : String → String
digest token = String.◌++◌ "sha256:" token

abbrev row : String → DeliveryStatus → ℕ → Delivery
row id status attempts = record {
  delivery_id = id;
  event_id = "e1";
  event_key = "warframe.sortie";
  platform = "qq";
  openid = id;
  message = end;
  status = status;
  attempts = attempts;
  next_attempt_at = 10;
  lease_owner = none;
  lease_token_hash = none;
  lease_until = none;
  sent_at = none;
  platform_message_id = none;
  last_error_code = none;
  created_at = 1;
}

abbrev waiting : Delivery
waiting = row "d1" pending 0

abbrev held : Delivery
held = record (row "d2" leased 1) {
  lease_owner = some "w";
  lease_token_hash = some "sha256:t";
  lease_until = some 60_000_000;
}

abbrev done : Delivery
done = record (row "d3" sent 1) { sent_at = some 20 }

abbrev outbox : List Delivery
outbox = waiting ∷ held ∷ done ∷ []

outbox-IsKeyed : IsKeyed delivery_key outbox
unfolding string_discrete
outbox-IsKeyed = (
  (distinct "d2" "d1" refl, (distinct "d3" "d1" refl, tt)),
  ((distinct "d3" "d2" refl, tt), (tt, tt)),
)

outbox-IsSound : IsSoundTable outbox
outbox-IsSound = record {
  keyed = outbox-IsKeyed;
  rows = (
    record { owner = refl; hash = refl; until = refl; counted = refl; stamped = refl },
    (
      record { owner = refl; hash = refl; until = refl; counted = refl; stamped = refl },
      (record { owner = refl; hash = refl; until = refl; counted = refl; stamped = refl }, tt),
    ),
  );
}

abbrev free : String → Bool
free id = false

abbrev request : ClaimRequest
request = record { worker_id = "v"; platform = "qq"; limit = 5; lease_seconds = 30 }

abbrev tokens : ℕ → String
tokens i = "u"

abbrev history : List (Time × Call)
history =
    (20, claims free request tokens)
    ∷ (21, acks "d3" "x" none none)
    ∷ (22, fails "d1" "u" "rate_limited" true)
    ∷ (40_000_000, claims free request tokens)
    ∷ []

run-history : map (λ d. d.attempts) (run digest 10 history outbox) ≡ 2 ∷ 1 ∷ 1 ∷ []
unfolding run hermes_event_server.Outbox.Lifecycle.step claim hermes_event_server.Outbox.lease_rows
    claim_statement sort_by fail hermes_event_server.Outbox.find_leased get ack string_discrete
    eligible put lease_row holds hermes_event_server.Outbox.failed
run-history = refl

run-IsSoundTable_example : IsSoundTable (run digest 10 history outbox)
run-IsSoundTable_example = run-IsSoundTable digest 10 history outbox outbox-IsSound

run_final_example : get delivery_key "d3" (run digest 10 history outbox) ≡ some done
unfolding get string_discrete
run_final_example = run_final digest 10 history outbox done outbox-IsSound refl refl

run_leased_example : get delivery_key "d2" (run digest 10 history outbox) ≡ some held
unfolding get string_discrete
run_leased_example =
    run_leased digest 10 history outbox held "sha256:t" 60_000_000 outbox-IsSound refl refl refl
      refl
      (
        omega arith,
        (
          distinct (digest "x") "sha256:t" refl,
          (distinct (digest "u") "sha256:t" refl, (omega arith, tt)),
        ),
      )

claim-HandsOut_example :
    (items : List ClaimedDelivery) × ((claim digest free request 20 tokens outbox).0 ≡ ok items)
    × (length items ≤ 5)
    × All (IsClaimable free request 20 outbox) (claim_statement free "qq" 5 20 outbox)
    × HandsOut digest free request 20 tokens
        (claim digest free request 20 tokens outbox).1
        0
        (claim_statement free "qq" 5 20 outbox)
        items
claim-HandsOut_example = claim-HandsOut digest free request 20 tokens outbox outbox-IsKeyed

claim-ack_example :
    (items : List ClaimedDelivery) × ((claim digest free request 20 tokens outbox).0 ≡ ok items)
    × All
        (Acknowledges digest free request 20 tokens none none 25
          (claim digest free request 20 tokens outbox).1)
        items
claim-ack_example =
    claim-ack digest free request 20 tokens none none 25 outbox outbox-IsKeyed (omega arith)

claim-count :
    map
      (λ r. elim r [ ok items ↦ length items | err e ↦ 0 ])
      ((claim digest free request 20 tokens outbox).0 ∷ [])
    ≡ 1 ∷ []
unfolding claim hermes_event_server.Outbox.lease_rows claim_statement sort_by string_discrete
    eligible
claim-count = refl

fail_outcome_example :
    FailOutcome digest 10 "d2" "t" "rate_limited" true 25 outbox held
      (fail digest 10 "d2" "t" "rate_limited" true 25 outbox)
unfolding get string_discrete
fail_outcome_example = fail_outcome digest 10 "d2" "t" "rate_limited" true 25 outbox held refl

abbrev settings : DeliverySettings
settings = record { delivery_max_attempts = 10; delivery_default_lease_seconds = 60 }

abbrev body : DeliveryClaimRequest
body = record { worker_id = "v"; platform = "qq"; limit = 5; lease_seconds = none }

abbrev requests : List (Time × Request)
requests =
    (20, claims_some free body tokens)
    ∷ (21, acks_one "d1" "x" none none)
    ∷ (22, fails_one "d1" "u" "rate_limited" true)
    ∷ (40_000_000, claims_some free body tokens)
    ∷ []

respond_all-IsServed_example :
    IsServed digest settings
      (answered_count digest settings requests outbox)
      waiting
      (respond_all digest settings requests outbox)
unfolding get string_discrete
respond_all-IsServed_example =
    respond_all-IsServed digest settings requests outbox waiting outbox-IsSound refl
