-- ===== src/Outbox/Lifecycle.antt =====
-- The life of a delivery under any history of claims, acknowledgements and failures.
use hermes_event_server.Base.{
  ℕ, String, ◌≡◌, refl, ◌⊎◌, inl, inr, Bool, true, false, Option, some, List, [], ◌∷◌, arith, All,
  is_some, nat_beq, Bool-cases, Option-cases, All-map2,
}
use hermes_event_server.Base.Equality.{string_eq, nat_eq, pair_eq}
use hermes_event_server.Base.Table.{get, put, IsKeyed, put-IsKeyed, All-put, All-get}
use hermes_event_server.Base.Action.{lease_conflict_error, Result, ok, err}
use hermes_event_server.Models.{
  Time, DeliveryStatus, pending, leased, sent, dead, Delivery, delivery_key,
}
use hermes_event_server.Outbox.{
  ClaimRequest, matches_claim, claim_statement, lease_row, claim, holds, find_leased, acked, ack,
  failed, fail, eligible,
}
use hermes_event_server.Outbox.Rows.{claim_statement-All, claim_statement_matches, lease_rows-All}

-- One call of the outbox, at its time.
pub data Call : Type 0 where
  claims : (String → Bool) → ClaimRequest → (ℕ → String) → Call
  acks : String → String → Option Time → Option String → Call
  fails : String → String → String → Bool → Call

abbrev pub is_leased : DeliveryStatus → Bool
is_leased leased = true
is_leased _ = false

abbrev pub is_pending : DeliveryStatus → Bool
is_pending pending = true
is_pending _ = false

abbrev pub is_sent : DeliveryStatus → Bool
is_sent sent = true
is_sent _ = false

abbrev pub is_final : DeliveryStatus → Bool
is_final sent = true
is_final dead = true
is_final _ = false

-- Exactly a leased row has a lease; exactly a pending row was never claimed; exactly a sent row
-- has a time of sending.
pub record IsSound (d : Delivery) : Type 0 where
  pub owner : is_some d.lease_owner ≡ is_leased d.status
  pub hash : is_some d.lease_token_hash ≡ is_leased d.status
  pub until : is_some d.lease_until ≡ is_leased d.status
  pub counted : nat_beq d.attempts 0 ≡ is_pending d.status
  pub stamped : is_some d.sent_at ≡ is_sent d.status

pub record IsSoundTable (table : List Delivery) : Type 0 where
  pub keyed : IsKeyed delivery_key table
  pub rows : All IsSound table

module _ (digest : String → String) where
  lease_row-IsSound :
      (r : ClaimRequest) (now : Time) (token : String) (locked : String → Bool) (platform : String)
      (d : Delivery)
      → IsSound d × (matches_claim locked platform now d ≡ true)
      → IsSound (lease_row digest r now token d)
  unfolding lease_row eligible
  lease_row-IsSound r now token locked platform d (h, m) = record {
    owner = refl;
    hash = refl;
    until = refl;
    counted = ground arith;
    stamped = ground (arith, h.stamped);
  }

  find_leased_cases :
      (id token : String) (now : Time) (table : List Delivery)
      → (find_leased digest id token now table ≡ (err lease_conflict_error, table))
        ⊎ ((d : Delivery) × (get delivery_key id table ≡ some d)
            × (holds digest d token now ≡ true)
            × (find_leased digest id token now table ≡ (ok d, table)))
  unfolding find_leased
  find_leased_cases id token now table = elim (Option-cases (get delivery_key id table)) [
    | inl e ↦ inl (ground arith)
    | inr (d, e) ↦ elim (Bool-cases (holds digest d token now)) [
      | inl h ↦ inr (d, e, h, ground arith)
      | inr h ↦ inl (ground arith)
    ]
  ]

  -- An acknowledgement or a failure is refused and writes nothing, or settles the row that the key
  -- finds, under its lease.
  abbrev pub Settles :
      (Delivery → Delivery)
      → String
      → String
      → Time
      → List Delivery
      → Result Delivery × List Delivery
      → Type 0
  Settles f id token now table r =
      (r ≡ (err lease_conflict_error, table))
      ⊎ ((d : Delivery) × (get delivery_key id table ≡ some d)
          × (holds digest d token now ≡ true)
          × (r ≡ (ok (f d), put delivery_key (f d) table)))

  pub ack-Settles :
      (id token : String) (sent_at : Option Time) (message_id : Option String) (now : Time)
      (table : List Delivery)
      → Settles
          (acked sent_at message_id now)
          id
          token
          now
          table
          (ack digest id token sent_at message_id now table)
  unfolding ack
  ack-Settles id token sent_at message_id now table = elim (find_leased_cases id token now table) [
    | inl e ↦ inl (ground arith)
    | inr (d, g, h, e) ↦ inr (d, g, h, ground arith)
  ]

  pub fail-Settles :
      (max_attempts : ℕ) (id token code : String) (retryable : Bool) (now : Time)
      (table : List Delivery)
      → Settles
          (failed max_attempts code retryable now)
          id
          token
          now
          table
          (fail digest max_attempts id token code retryable now table)
  unfolding fail
  fail-Settles max_attempts id token code retryable now table =
      elim (find_leased_cases id token now table) [
        | inl e ↦ inl (ground arith)
        | inr (d, g, h, e) ↦ inr (d, g, h, ground arith)
      ]

  acked-IsSound :
      (sent_at : Option Time) (message_id : Option String) (now : Time) (token : String)
      (d : Delivery)
      → IsSound d
      → holds digest d token now ≡ true
      → IsSound (acked sent_at message_id now d)
  unfolding acked holds
  acked-IsSound sent_at message_id now token d s h = record {
    owner = refl;
    hash = refl;
    until = refl;
    counted = ground (arith, s.counted);
    stamped = refl;
  }

  failed-IsSound :
      (max_attempts : ℕ) (code : String) (retryable : Bool) (now : Time) (token : String)
      (d : Delivery)
      → IsSound d
      → holds digest d token now ≡ true
      → IsSound (failed max_attempts code retryable now d)
  unfolding failed holds
  failed-IsSound max_attempts code retryable now token d s h = record {
    owner = ground arith;
    hash = ground arith;
    until = ground arith;
    counted = ground (arith, s.counted);
    stamped = ground (arith, s.stamped);
  }

  -- A claim, whatever it selects, keeps a sound table sound.
  claim-IsSoundTable :
      (locked : String → Bool) (r : ClaimRequest) (now : Time) (tokens : ℕ → String)
      (table : List Delivery)
      → IsSoundTable table
      → IsSoundTable (claim digest locked r now tokens table).1
  unfolding claim
  claim-IsSoundTable locked r now tokens table s =
      let selected = claim_statement locked r.platform r.limit now table in
      let both =
        All-map2 {R = λ d. IsSound d × (matches_claim locked r.platform now d ≡ true)} selected
          (λ d a b. (a, b)) (claim_statement-All locked r.platform r.limit now table IsSound s.rows)
          (claim_statement_matches locked r.platform r.limit now table) in
      let (rows, keyed) =
        lease_rows-All digest r now tokens IsSound
          (λ d. IsSound d × (matches_claim locked r.platform now d ≡ true))
          (λ token d. lease_row-IsSound r now token locked r.platform d) 0 selected table both
          s.rows s.keyed in
      record { keyed = keyed; rows = rows }

  settle-IsSoundTable :
      (f : Delivery → Delivery) (id token : String) (now : Time) (table : List Delivery)
      (r : Result Delivery × List Delivery)
      → ((d : Delivery) → IsSound d → holds digest d token now ≡ true → IsSound (f d))
      → Settles f id token now table r
      → IsSoundTable table
      → IsSoundTable r.1
  settle-IsSoundTable f id token now table r keep (inl e) s = rw e s
  settle-IsSoundTable f id token now table r keep (inr (d, g, h, e)) s = rw e (record {
    keyed = put-IsKeyed delivery_key (f d) table s.keyed;
    rows =
        All-put delivery_key IsSound (f d) table
          (keep d (All-get delivery_key IsSound id d table s.rows g) h) s.rows;
  })

  module _ (max_attempts : ℕ) where
    unfoldable pub step : Time × Call → List Delivery → List Delivery
    step (now, claims locked r tokens) table = (claim digest locked r now tokens table).1
    step (now, acks id token sent_at message_id) table =
        (ack digest id token sent_at message_id now table).1
    step (now, fails id token code retryable) table =
        (fail digest max_attempts id token code retryable now table).1

    unfoldable pub run : List (Time × Call) → List Delivery → List Delivery
    run [] table = table
    run (c ∷ cs) table = run cs (step c table)

    pub step-IsSoundTable :
        (c : Time × Call) (table : List Delivery) → IsSoundTable table → IsSoundTable (step c table)
    unfolding step
    step-IsSoundTable (now, claims locked r tokens) table s =
        claim-IsSoundTable locked r now tokens table s
    step-IsSoundTable (now, acks id token sent_at message_id) table s =
        settle-IsSoundTable _ id token now table _ (acked-IsSound sent_at message_id now token)
          (ack-Settles id token sent_at message_id now table) s
    step-IsSoundTable (now, fails id token code retryable) table s =
        settle-IsSoundTable _ id token now table _
          (failed-IsSound max_attempts code retryable now token)
          (fail-Settles max_attempts id token code retryable now table) s

    -- From a sound table every history of claims, acknowledgements and failures, whatever their
    -- times and tokens, leads to a sound table.
    pub run-IsSoundTable :
        (cs : List (Time × Call)) (table : List Delivery)
        → IsSoundTable table
        → IsSoundTable (run cs table)
    unfolding run
    run-IsSoundTable [] table s = s
    run-IsSoundTable (c ∷ cs) table s =
        run-IsSoundTable cs (step c table) (step-IsSoundTable c table s)
