-- ===== src/Outbox/Claim.antt =====
-- What `claim` hands to a worker, and that a worker can acknowledge it.
use hermes_event_server.Base.{
  ℕ, suc, ◌+◌, ◌≤◌, ◌<◌, String, ◌≡◌, refl, Bool, Option, some, List, [], ◌∷◌, arith, All, length,
}
use hermes_event_server.Base.Equality.{string_eq, nat_eq, pair_eq}
use hermes_event_server.Base.Table.{get, put, get-put_self, IsKeyed}
use hermes_event_server.Base.Action.{ok}
use hermes_event_server.Models.{Time, seconds, sent, Delivery, delivery_key}
use hermes_event_server.Outbox.{
  ClaimRequest, ClaimedDelivery, claim_statement, lease_row, claimed_item, claim, holds,
  find_leased, acked, ack,
}
use hermes_event_server.Outbox.Rows.{
  claim_statement-IsKeyed, length-claim_statement, Leases, lease_rows-Leases,
}

module _ (digest : String → String) (locked : String → Bool) (r : ClaimRequest) (now : Time)
    (tokens : ℕ → String) where
  -- On a keyed table `claim` returns, with at most `limit` items, one for each row that the query
  -- selects, in order. Each item shows the row with its attempt counted and the fresh token, and
  -- after the claim the table has that row leased to the worker until `lease_seconds` from now.
  pub claim-Leases :
      (table : List Delivery)
      → IsKeyed delivery_key table
      → (items : List ClaimedDelivery) × ((claim digest locked r now tokens table).0 ≡ ok items)
        × (length items ≤ r.limit)
        × Leases digest r now tokens
            (claim digest locked r now tokens table).1
            0
            (claim_statement locked r.platform r.limit now table)
            items
  unfolding claim
  claim-Leases table k =
      let (items, e, n, l) =
        lease_rows-Leases digest r now tokens 0 _ table
          (claim_statement-IsKeyed locked r.platform r.limit now table k) in
      (items, e, rw n (length-claim_statement locked r.platform r.limit now table), l)

  -- Nobody else can hold the row that a token was just issued for.
  ack_leased :
      (d : Delivery) (token : String) (sent_at : Option Time) (message_id : Option String)
      (later : Time) (table : List Delivery)
      → get delivery_key d.delivery_id table ≡ some (lease_row digest r now token d)
      → later < now + seconds r.lease_seconds
      → ack digest d.delivery_id token sent_at message_id later table ≡ (
        ok (acked sent_at message_id later (lease_row digest r now token d)),
        put delivery_key (acked sent_at message_id later (lease_row digest r now token d)) table,
      )
  unfolding ack find_leased holds lease_row
  ack_leased d token sent_at message_id later table g h = ground arith

  -- A claimed item's identifier and token settle its delivery as sent.
  abbrev pub Acknowledges :
      Option Time → Option String → Time → List Delivery → ClaimedDelivery → Type 0
  Acknowledges sent_at message_id later table c =
      (d : Delivery) × ((ack digest c.delivery_id c.lease_token sent_at message_id later table).0
        ≡ ok d)
      × (d.delivery_id ≡ c.delivery_id)
      × (d.status ≡ sent)
      × (d.attempts ≡ c.attempt)
      × (get delivery_key c.delivery_id
            (ack digest c.delivery_id c.lease_token sent_at message_id later table).1
          ≡ some d)

  module _ (sent_at : Option Time) (message_id : Option String) (later : Time)
      (h : later < now + seconds r.lease_seconds) where
    acknowledge :
        (i : ℕ) (d : Delivery) (table : List Delivery)
        → get delivery_key d.delivery_id table ≡ some (lease_row digest r now (tokens i) d)
        → Acknowledges sent_at message_id later table
            (claimed_item (tokens i) (lease_row digest r now (tokens i) d))
    unfolding claimed_item
    acknowledge i d table g =
        let done = acked sent_at message_id later (lease_row digest r now (tokens i) d) in
        let e = ack_leased d (tokens i) sent_at message_id later table g h in
        (
          done,
          unfold lease_row in rw e,
          unfold acked lease_row in refl,
          unfold acked in refl,
          unfold acked in refl,
          unfold lease_row acked in rw e (get-put_self delivery_key done table),
        )

    All-acknowledge :
        (i : ℕ) (rows : List Delivery) (items : List ClaimedDelivery) (final : List Delivery)
        → Leases digest r now tokens final i rows items
        → All (Acknowledges sent_at message_id later final) items
    All-acknowledge i [] [] final l = tt
    All-acknowledge i [] (c ∷ cs) final l = absurd l
    All-acknowledge i (d ∷ ds) [] final l = absurd l
    All-acknowledge i (d ∷ ds) (c ∷ cs) final (e, g, l) =
        (rw e (acknowledge i d final g), All-acknowledge (suc i) ds cs final l)

-- On a keyed table, every item that a claim returns can be acknowledged with its own token at any
-- time before the lease ends: the call returns the delivery as sent, with the attempt that the item
-- showed, and the table holds it so.
pub claim-ack :
    (digest : String → String) (locked : String → Bool) (r : ClaimRequest) (now : Time)
    (tokens : ℕ → String) (sent_at : Option Time) (message_id : Option String) (later : Time)
    (table : List Delivery)
    → IsKeyed delivery_key table
    → later < now + seconds r.lease_seconds
    → (items : List ClaimedDelivery) × ((claim digest locked r now tokens table).0 ≡ ok items)
      × All
          (Acknowledges digest locked r now tokens sent_at message_id later
            (claim digest locked r now tokens table).1)
          items
claim-ack digest locked r now tokens sent_at message_id later table k h =
    let (items, e, n, l) = claim-Leases digest locked r now tokens table k in
    (items, e, All-acknowledge digest locked r now tokens sent_at message_id later h 0 _ items _ l)
