-- ===== src/Api/DeliveryRoutes/Refines.antt =====
-- The delivery requests as a refinement of a machine of stages: whatever workers send, and however it
-- is interleaved, each delivery goes through steps of that machine, at most one for each request that
-- is answered.
use hermes_event_server.Base.{
  ℕ, suc, ◌≤◌, String, ◌≡◌, refl, sym, ap, subst, ◌∙◌, ◌⊎◌, inl, inr, Bool, true, false, Option,
  none, some, List, [], ◌∷◌, arith, if◌then◌else◌, Bool-cases,
}
use hermes_event_server.Base.Equality.{string_eq, nat_eq, pair_eq}
use hermes_event_server.Base.Table.{get, put, key-get}
use hermes_event_server.Base.Action.{
  Error, lease_conflict_error, Result, ok, err, Action, pure, bind-ok, bind-err,
}
use hermes_event_server.Models.{Time, Delivery, delivery_key}
use hermes_event_server.Api.{Reply, reply, http_exception, uncaught, handle, close}
use hermes_event_server.Outbox.{ClaimRequest, claim, ack, fail, acked, failed}
use hermes_event_server.Outbox.Claim.{claim-Leases}
use hermes_event_server.Outbox.Lifecycle.{
  Call, claims, acks, fails, Settles, ack-Settles, fail-Settles, IsSoundTable, step,
  step-IsSoundTable,
}
use hermes_event_server.Outbox.Moves.{Stage, stage, Step, Moves}
use hermes_event_server.Outbox.Stages.{step-Follows}
use hermes_event_server.Api.DeliveryRoutes.{
  DeliverySettings, DeliveryClaimRequest, lease_seconds_or, delivery_errors, answered,
  delivery_status, claim_deliveries, ack_delivery, fail_delivery,
}

-- A request, with what the server takes from elsewhere for it.
pub data Request : Type 0 where
  claims_some : (String → Bool) → DeliveryClaimRequest → (ℕ → String) → Request
  acks_one : String → String → Option Time → Option String → Request
  fails_one : String → String → String → Bool → Request

-- A chain of steps of the machine, with their number.
pub data Leads (max_attempts : ℕ) : ℕ → Stage → Stage → Type 0 where
  arrived : (s : Stage) → Leads max_attempts 0 s s
  onward :
      (n : ℕ) (s t u : Stage)
      → Step max_attempts s t
      → Leads max_attempts n t u
      → Leads max_attempts (suc n) s u

abbrev pub is_reply : {A : Type 0} → Reply A → Bool
is_reply (reply a) = true
is_reply (http_exception code) = false
is_reply (uncaught e) = false

module _ (digest : String → String) (settings : DeliverySettings) where
  abbrev call_of : Request → Call
  call_of (claims_some locked body tokens) =
      claims locked
        (record {
          worker_id = body.worker_id;
          platform = body.platform;
          limit = body.limit;
          lease_seconds =
              lease_seconds_or body.lease_seconds settings.delivery_default_lease_seconds;
        })
        tokens
  call_of (acks_one id token sent_at message_id) = acks id token sent_at message_id
  call_of (fails_one id token code retryable) = fails id token code retryable

  -- The table after the handler.
  unfoldable pub respond : Time × Request → List Delivery → List Delivery
  respond (now, claims_some locked body tokens) table =
      (claim_deliveries digest settings locked body now tokens table).1
  respond (now, acks_one id token sent_at message_id) table =
      (ack_delivery digest settings id token sent_at message_id now table).1
  respond (now, fails_one id token code retryable) table =
      (fail_delivery digest settings id token code retryable now table).1

  -- Whether the handler answers, without an exception.
  unfoldable pub is_answered : Time × Request → List Delivery → Bool
  is_answered (now, claims_some locked body tokens) table =
      is_reply (claim_deliveries digest settings locked body now tokens table).0
  is_answered (now, acks_one id token sent_at message_id) table =
      is_reply (ack_delivery digest settings id token sent_at message_id now table).0
  is_answered (now, fails_one id token code retryable) table =
      is_reply (fail_delivery digest settings id token code retryable now table).0

  unfoldable pub respond_all : List (Time × Request) → List Delivery → List Delivery
  respond_all [] table = table
  respond_all (r ∷ rs) table = respond_all rs (respond r table)

  -- How many of the requests are answered.
  unfoldable pub answered_count : List (Time × Request) → List Delivery → ℕ
  answered_count [] table = 0
  answered_count (r ∷ rs) table =
      let later = answered_count rs (respond r table) in
      if is_answered r table then suc later else later

  closed_unanswered :
      {A : Type 0} (status : Error → Option ℕ) (r : Result A × List Delivery)
      (table : List Delivery)
      → is_reply (close status r table).0 ≡ false
      → (close status r table).1 ≡ table
  closed_unanswered status (ok a, after) table h = absurd (ground (arith, h))
  closed_unanswered status (err e, after) table h = refl

  unanswered :
      {A : Type 0} (status : Error → Option ℕ) (m : Action (List Delivery) A)
      (table : List Delivery)
      → is_reply (handle status m table).0 ≡ false
      → (handle status m table).1 ≡ table
  unfolding handle
  unanswered status m table h = closed_unanswered status (m table) table h

  -- A refused request leaves the table as it is.
  respond_refused :
      (r : Time × Request) (table : List Delivery)
      → is_answered r table ≡ false
      → respond r table ≡ table
  unfolding respond is_answered claim_deliveries ack_delivery fail_delivery
  respond_refused (now, claims_some locked body tokens) table h =
      unanswered (λ e. none)
        (claim digest locked
          (record {
            worker_id = body.worker_id;
            platform = body.platform;
            limit = body.limit;
            lease_seconds =
                lease_seconds_or body.lease_seconds settings.delivery_default_lease_seconds;
          })
          now tokens)
        table h
  respond_refused (now, acks_one id token sent_at message_id) table h =
      unanswered delivery_errors (answered (ack digest id token sent_at message_id now)) table h
  respond_refused (now, fails_one id token code retryable) table h =
      unanswered delivery_errors
        (answered (fail digest settings.delivery_max_attempts id token code retryable now)) table h

  handled_ok :
      {A : Type 0} (status : Error → Option ℕ) (m : Action (List Delivery) A)
      (table after : List Delivery) (a : A)
      → m table ≡ (ok a, after)
      → (handle status m table).1 ≡ after
  unfolding handle
  handled_ok status m table after a h = ap (λ r. (close status r table).1) h

  handled_err :
      {A : Type 0} (status : Error → Option ℕ) (m : Action (List Delivery) A)
      (table after : List Delivery) (e : Error)
      → m table ≡ (err e, after)
      → (handle status m table).1 ≡ table
  unfolding handle
  handled_err status m table after e h = ap (λ r. (close status r table).1) h

  settled :
      (f : Delivery → Delivery) (id token : String) (now : Time) (table : List Delivery)
      (m : Action (List Delivery) Delivery)
      → Settles digest f id token now table (m table)
      → (handle delivery_errors (answered m) table).1 ≡ (m table).1
  settled f id token now table m (inl e) =
      handled_err delivery_errors (answered m) table table lease_conflict_error
        (bind-err m (λ row. pure (delivery_status row)) table table lease_conflict_error e)
      ∙ ap (λ r. r.1) (sym e)
  settled f id token now table m (inr (d, g, h, e)) =
      handled_ok delivery_errors (answered m) table (put delivery_key (f d) table)
        (delivery_status (f d))
        (bind-ok m (λ row. pure (delivery_status row)) table (put delivery_key (f d) table) (f d) e)
      ∙ ap (λ r. r.1) (sym e)

  respond-step :
      (now : Time) (r : Request) (table : List Delivery)
      → IsSoundTable table
      → respond (now, r) table ≡ step digest settings.delivery_max_attempts (now, call_of r) table
  unfolding respond step claim_deliveries ack_delivery fail_delivery
  respond-step now (claims_some locked body tokens) table s =
      let request : ClaimRequest = record {
        worker_id = body.worker_id;
        platform = body.platform;
        limit = body.limit;
        lease_seconds = lease_seconds_or body.lease_seconds settings.delivery_default_lease_seconds;
      } in
      let (items, e, few, all) = claim-Leases digest locked request now tokens table s.keyed in
      handled_ok (λ e. none) (claim digest locked request now tokens) table
        (claim digest locked request now tokens table).1 items
        (ap (λ r. (r, (claim digest locked request now tokens table).1)) e)
  respond-step now (acks_one id token sent_at message_id) table s =
      settled (acked sent_at message_id now) id token now table
        (ack digest id token sent_at message_id now)
        (ack-Settles digest id token sent_at message_id now table)
  respond-step now (fails_one id token code retryable) table s =
      settled (failed settings.delivery_max_attempts code retryable now) id token now table
        (fail digest settings.delivery_max_attempts id token code retryable now)
        (fail-Settles digest settings.delivery_max_attempts id token code retryable now table)

  -- What became of a delivery: the same content for the same recipient, at a later stage.
  pub record IsServed (limit : ℕ) (d : Delivery) (table : List Delivery) : Type 0 where
    pub row : Delivery
    pub found : get delivery_key d.delivery_id table ≡ some row
    pub event : row.event_id ≡ d.event_id
    pub recipient : (row.platform ≡ d.platform) × (row.openid ≡ d.openid)
    pub message : row.message ≡ d.message
    pub steps : ℕ
    pub few : steps ≤ limit
    pub leads : Leads settings.delivery_max_attempts steps (stage d) (stage row)

  -- A chain with what may be a step before it.
  Leads-before :
      (n limit : ℕ) (s t u : Stage)
      → (t ≡ s) ⊎ Step settings.delivery_max_attempts s t
      → n ≤ limit
      → Leads settings.delivery_max_attempts n t u
      → (k : ℕ) × (k ≤ suc limit) × Leads settings.delivery_max_attempts k s u
  Leads-before n limit s t u (inl e) few l =
      (n, omega (arith, few), subst (λ x. Leads settings.delivery_max_attempts n x u) e l)
  Leads-before n limit s t u (inr m) few l = (suc n, omega (arith, few), onward n s t u m l)

  IsServed-before :
      (limit : ℕ) (d e : Delivery) (table : List Delivery)
      → Moves settings.delivery_max_attempts d e
      → e.delivery_id ≡ d.delivery_id
      → IsServed limit e table
      → IsServed (suc limit) d table
  IsServed-before limit d e table m key later =
      let (steps, few, leads) =
        Leads-before later.steps limit (stage d) (stage e) (stage later.row) m.moved later.few
          later.leads in
      record {
        row = later.row;
        found = subst (λ k. get delivery_key k table ≡ some later.row) key later.found;
        event = later.event ∙ m.event;
        recipient = (later.recipient.0 ∙ m.recipient.0, later.recipient.1 ∙ m.recipient.1);
        message = later.message ∙ m.message;
        steps = steps;
        few = few;
        leads = leads;
      }

  -- From a sound table any sequence of requests to claim, acknowledge and fail, by any workers and
  -- with any tokens, refines the machine of stages: a delivery of the table is still there, with the
  -- same event, recipient and message, and its stage is reached by at most one step for each request
  -- that is answered, and none for a request that ends in an exception. The steps are: waiting to
  -- held, with one attempt more; held to held by another claim, with one attempt more, however many
  -- there were; held to delivered, to given up, or back to waiting while attempts are left.
  pub respond_all-IsServed :
      (rs : List (Time × Request)) (table : List Delivery) (d : Delivery)
      → IsSoundTable table
      → get delivery_key d.delivery_id table ≡ some d
      → IsServed (answered_count rs table) d (respond_all rs table)
  unfolding respond_all answered_count
  respond_all-IsServed [] table d s g = record {
    row = d;
    found = g;
    event = refl;
    recipient = (refl, refl);
    message = refl;
    steps = 0;
    few = omega arith;
    leads = arrived (stage d);
  }
  respond_all-IsServed ((now, r) ∷ rs) table d s g =
      elim (Bool-cases (is_answered (now, r) table)) [
        | inr refused ↦
            rw (refused, respond_refused (now, r) table refused)
              (respond_all-IsServed rs table d s g)
        | inl yes_answered ↦
            let c : Time × Call = (now, call_of r) in
            let after : List Delivery = step digest settings.delivery_max_attempts c table in
            let same : respond (now, r) table ≡ after = respond-step now r table s in
            let (e, found, m) = step-Follows digest settings.delivery_max_attempts c table d s g in
            let key : e.delivery_id ≡ d.delivery_id =
              key-get delivery_key d.delivery_id e after found in
            let sound = step-IsSoundTable digest settings.delivery_max_attempts c table s in
            let later : IsServed (answered_count rs after) e (respond_all rs after) =
              respond_all-IsServed rs after e sound
                (subst (λ k. get delivery_key k after ≡ some e) (sym key) found) in
            rw (yes_answered, same)
              (IsServed-before (answered_count rs after) d e (respond_all rs after) m key later)
      ]
