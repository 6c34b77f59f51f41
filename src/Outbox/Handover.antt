-- ===== src/Outbox/Handover.antt =====
-- What a worker is given by `claim`, and what the table then says of it, column by column.
use hermes_event_server.Base.{
  ℕ, suc, ◌+◌, ◌≤◌, ◌<◌, String, ◌≡◌, Bool, true, false, Option, none, some, List, [], ◌∷◌, arith,
  All, All-map2, length,
}
use hermes_event_server.Base.Equality.{string_eq, nat_eq, pair_eq}
use hermes_event_server.Base.Table.{get, IsKeyed, Found, rows-Found}
use hermes_event_server.Base.Action.{ok}
use hermes_event_server.Models.{
  Time, seconds, DeliveryStatus, pending, leased, retry, sent, dead, Delivery, delivery_key,
}
use hermes_event_server.Outbox.{
  ClaimRequest, ClaimedDelivery, eligible, matches_claim, claim_statement, lease_row, claimed_item,
  claim,
}
use hermes_event_server.Outbox.Rows.{Leases, claim_statement-All, claim_statement_matches}
use hermes_event_server.Outbox.Claim.{claim-Leases}

-- A delivery that waits is due, or one that is held has lost its lease.
abbrev pub IsDue : Time → DeliveryStatus → Time → Option Time → Type 0
IsDue now pending next lease = next ≤ now
IsDue now retry next lease = next ≤ now
IsDue now leased next (some until) = until < now
IsDue now leased next none = true ≡ false
IsDue now sent next lease = true ≡ false
IsDue now dead next lease = true ≡ false

-- A row of the table for the platform that is due and that no other transaction locks.
abbrev pub IsClaimable : (String → Bool) → ClaimRequest → Time → List Delivery → Delivery → Type 0
IsClaimable locked r now table d =
    (get delivery_key d.delivery_id table ≡ some d)
    × (d.platform ≡ r.platform)
    × (locked d.delivery_id ≡ false)
    × IsDue now d.status d.next_attempt_at d.lease_until

eligible-IsDue :
    (now : Time) (d : Delivery)
    → eligible now d ≡ true
    → IsDue now d.status d.next_attempt_at d.lease_until
unfolding eligible
eligible-IsDue now d h = due_status now d.status d.next_attempt_at d.lease_until h
  where
    due_status :
        (now : Time) (s : DeliveryStatus) (next : Time) (lease : Option Time)
        → hermes_event_server.Outbox.eligible_at s next lease now ≡ true
        → IsDue now s next lease
    due_status now pending next lease h = ground (arith, h)
    due_status now retry next lease h = ground (arith, h)
    due_status now leased next none h = absurd (ground (arith, h))
    due_status now leased next (some until) h = ground (arith, h)
    due_status now sent next lease h = absurd (ground (arith, h))
    due_status now dead next lease h = absurd (ground (arith, h))

module _ (digest : String → String) (locked : String → Bool) (r : ClaimRequest) (now : Time)
    (tokens : ℕ → String) where
  -- The rows and the items, from the i-th turn on, and the table in the end.
  abbrev pub HandsOut : List Delivery → ℕ → List Delivery → List ClaimedDelivery → Type 0
  HandsOut final i [] [] = Unit
  HandsOut final i [] (c ∷ cs) = true ≡ false
  HandsOut final i (d ∷ ds) [] = true ≡ false
  HandsOut final i (d ∷ ds) (c ∷ cs) =
      (c ≡ record {
        delivery_id = d.delivery_id;
        lease_token = tokens i;
        event_id = d.event_id;
        event_key = d.event_key;
        platform = d.platform;
        openid = d.openid;
        message = d.message;
        attempt = d.attempts + 1;
        created_at = d.created_at;
      })
      × (get delivery_key d.delivery_id final
          ≡ some (record d {
            status = leased;
            attempts = d.attempts + 1;
            lease_owner = some r.worker_id;
            lease_token_hash = some (digest (tokens i));
            lease_until = some (now + seconds r.lease_seconds);
          }))
      × HandsOut final (suc i) ds cs

  Leases-HandsOut :
      (final : List Delivery) (i : ℕ) (rows : List Delivery) (items : List ClaimedDelivery)
      → Leases digest r now tokens final i rows items
      → HandsOut final i rows items
  unfolding lease_row claimed_item
  Leases-HandsOut final i [] [] l = tt
  Leases-HandsOut final i [] (c ∷ cs) l = absurd l
  Leases-HandsOut final i (d ∷ ds) [] l = absurd l
  Leases-HandsOut final i (d ∷ ds) (c ∷ cs) (e, g, l) =
      (e, g, Leases-HandsOut final (suc i) ds cs l)

  -- On a keyed table `claim` returns at most `limit` items, one for each row that the query selects,
  -- in its order. A selected row is of the platform, not locked elsewhere, and due: pending or to be
  -- retried with its time reached, or leased with the lease's end passed. Each item has the row's
  -- identifier, event, recipient and message, one attempt more than the row had, and the fresh token;
  -- and afterwards the table has the row as leased to the worker, with that attempt, the digest of the
  -- token and an end `lease_seconds` from now, and otherwise as it was.
  pub claim-HandsOut :
      (table : List Delivery)
      → IsKeyed delivery_key table
      → (items : List ClaimedDelivery) × ((claim digest locked r now tokens table).0 ≡ ok items)
        × (length items ≤ r.limit)
        × All (IsClaimable locked r now table) (claim_statement locked r.platform r.limit now table)
        × HandsOut
            (claim digest locked r now tokens table).1
            0
            (claim_statement locked r.platform r.limit now table)
            items
  claim-HandsOut table k =
      let (items, e, few, l) = claim-Leases digest locked r now tokens table k in
      let rows = claim_statement locked r.platform r.limit now table in
      (
        items,
        e,
        few,
        All-map2 rows
            (λ d found hit. (
              found,
              ground (arith, hit),
              ground (arith, hit),
              eligible-IsDue now d (ground (arith, hit)),
            ))
            (claim_statement-All locked r.platform r.limit now table (Found delivery_key table)
              (rows-Found delivery_key table k))
            (claim_statement_matches locked r.platform r.limit now table),
        Leases-HandsOut _ 0 rows items l,
      )
