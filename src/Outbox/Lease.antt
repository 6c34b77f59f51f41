-- ===== src/Outbox/Lease.antt =====
-- What a history cannot change: a settled delivery, and a delivery under someone else's lease.
use hermes_event_server.Base.{
  ℕ, ◌≤◌, String, ◌≡◌, refl, sym, ◌∙◌, ◌≢◌, ◌⊎◌, inl, inr, Bool, true, false, Option, some, List,
  [], ◌∷◌, arith, All,
}
use hermes_event_server.Base.Equality.{string_eq, nat_eq, pair_eq}
use hermes_event_server.Base.Table.{get, get-put_ne, key-get, IsKeyed}
use hermes_event_server.Base.Action.{Result}
use hermes_event_server.Models.{Time, leased, Delivery, delivery_key}
use hermes_event_server.Outbox.{ClaimRequest, matches_claim, claim, holds, acked, failed, eligible}
use hermes_event_server.Outbox.Rows.{get-lease_rows_ne, claim_statement_spares}
use hermes_event_server.Outbox.Lifecycle.{
  Call, claims, acks, fails, is_final, IsSoundTable, Settles, ack-Settles, fail-Settles, step, run,
  step-IsSoundTable,
}

module _ (digest : String → String) where
  -- A claim leaves a row alone that its query does not match.
  pub get-claim :
      (locked : String → Bool) (r : ClaimRequest) (now : Time) (tokens : ℕ → String)
      (table : List Delivery) (id : String) (d : Delivery)
      → IsKeyed delivery_key table
      → get delivery_key id table ≡ some d
      → matches_claim locked r.platform now d ≡ false
      → get delivery_key id (claim digest locked r now tokens table).1 ≡ some d
  unfolding claim
  get-claim locked r now tokens table id d k e no_match =
      get-lease_rows_ne digest r now tokens id 0 _ table
        (claim_statement_spares locked r.platform r.limit now table id d k e no_match)
      ∙ e

  -- An acknowledgement or a failure under a token that does not hold the row leaves it alone.
  get-Settles :
      (f : Delivery → Delivery) (id token : String) (now : Time) (table : List Delivery)
      (r : Result Delivery × List Delivery) (j : String) (d : Delivery)
      → ((x : Delivery) → (f x).delivery_id ≡ x.delivery_id)
      → Settles digest f id token now table r
      → get delivery_key j table ≡ some d
      → holds digest d token now ≡ false ⊎ (id ≢ j)
      → get delivery_key j r.1 ≡ some d
  get-Settles f id token now table r j d same (inl e) g h = rw e g
  get-Settles f id token now table r j d same (inr (x, gx, hx, e)) g h =
      rw e (get-put_ne delivery_key j (f x) table apart ∙ g)
    where
      apart : (f x).delivery_id ≢ j
      apart p = ground (arith, same x, key-get delivery_key id x table gx, h)

  module _ (max_attempts : ℕ) where
    not_final :
        (d : Delivery) (token : String) (now : Time)
        → is_final d.status ≡ true
        → holds digest d token now ≡ false
    unfolding holds
    not_final d token now h = ground arith

    final_unmatched :
        (locked : String → Bool) (platform : String) (now : Time) (d : Delivery)
        → is_final d.status ≡ true
        → matches_claim locked platform now d ≡ false
    unfolding eligible
    final_unmatched locked platform now d h = ground arith

    acked_id :
        (sent_at : Option Time) (message_id : Option String) (now : Time) (x : Delivery)
        → (acked sent_at message_id now x).delivery_id ≡ x.delivery_id
    unfolding acked
    acked_id sent_at message_id now x = refl

    failed_id :
        (code : String) (retryable : Bool) (now : Time) (x : Delivery)
        → (failed max_attempts code retryable now x).delivery_id ≡ x.delivery_id
    unfolding failed
    failed_id code retryable now x = ground arith

    -- A call that does not touch the row `d`: its query does not match it, its token does not hold it.
    abbrev pub Spares : Delivery → Time × Call → Type 0
    Spares d (now, claims locked r tokens) = matches_claim locked r.platform now d ≡ false
    Spares d (now, acks id token sent_at message_id) =
        (holds digest d token now ≡ false) ⊎ (id ≢ d.delivery_id)
    Spares d (now, fails id token code retryable) =
        (holds digest d token now ≡ false) ⊎ (id ≢ d.delivery_id)

    get-step :
        (c : Time × Call) (table : List Delivery) (d : Delivery)
        → IsSoundTable table
        → get delivery_key d.delivery_id table ≡ some d
        → Spares d c
        → get delivery_key d.delivery_id (step digest max_attempts c table) ≡ some d
    unfolding step
    get-step (now, claims locked r tokens) table d s g h =
        get-claim locked r now tokens table d.delivery_id d s.keyed g h
    get-step (now, acks id token sent_at message_id) table d s g h =
        get-Settles _ id token now table _ d.delivery_id d (acked_id sent_at message_id now)
          (ack-Settles digest id token sent_at message_id now table) g h
    get-step (now, fails id token code retryable) table d s g h =
        get-Settles _ id token now table _ d.delivery_id d (failed_id code retryable now)
          (fail-Settles digest max_attempts id token code retryable now table) g h

    get-run :
        (cs : List (Time × Call)) (table : List Delivery) (d : Delivery)
        → IsSoundTable table
        → get delivery_key d.delivery_id table ≡ some d
        → All (Spares d) cs
        → get delivery_key d.delivery_id (run digest max_attempts cs table) ≡ some d
    unfolding run
    get-run [] table d s g h = g
    get-run (c ∷ cs) table d s g h =
        get-run cs (step digest max_attempts c table) d
          (step-IsSoundTable digest max_attempts c table s) (get-step c table d s g h.0) h.1

    All-Spares_final :
        (cs : List (Time × Call)) (d : Delivery) → is_final d.status ≡ true → All (Spares d) cs
    All-Spares_final [] d h = tt
    All-Spares_final ((now, claims locked r tokens) ∷ cs) d h =
        (final_unmatched locked r.platform now d h, All-Spares_final cs d h)
    All-Spares_final ((now, acks id token sent_at message_id) ∷ cs) d h =
        (inl (not_final d token now h), All-Spares_final cs d h)
    All-Spares_final ((now, fails id token code retryable) ∷ cs) d h =
        (inl (not_final d token now h), All-Spares_final cs d h)

    -- A sent or dead delivery of a sound table is the same row after every history: no claim leases
    -- it again, and no token acknowledges or fails it.
    pub run_final :
        (cs : List (Time × Call)) (table : List Delivery) (d : Delivery)
        → IsSoundTable table
        → get delivery_key d.delivery_id table ≡ some d
        → is_final d.status ≡ true
        → get delivery_key d.delivery_id (run digest max_attempts cs table) ≡ some d
    run_final cs table d s g h = get-run cs table d s g (All-Spares_final cs d h)

    -- A call at a time up to the end of the lease, which settles only under tokens of other digests.
    abbrev pub IsForeign : String → Time → Time × Call → Type 0
    IsForeign hash until (now, claims locked r tokens) = now ≤ until
    IsForeign hash until (now, acks id token sent_at message_id) = digest token ≢ hash
    IsForeign hash until (now, fails id token code retryable) = digest token ≢ hash

    foreign-Spares :
        (c : Time × Call) (d : Delivery) (hash : String) (until : Time)
        → d.status ≡ leased
        → d.lease_token_hash ≡ some hash
        → d.lease_until ≡ some until
        → IsForeign hash until c
        → Spares d c
    unfolding eligible holds
    foreign-Spares (now, claims locked r tokens) d hash until a b u h = ground arith
    foreign-Spares (now, acks id token sent_at message_id) d hash until a b u h =
        inl (ground (arith, λ (p : hash ≡ digest token). h (sym p)))
    foreign-Spares (now, fails id token code retryable) d hash until a b u h =
        inl (ground (arith, λ (p : hash ≡ digest token). h (sym p)))

    All-Spares_foreign :
        (cs : List (Time × Call)) (d : Delivery) (hash : String) (until : Time)
        → d.status ≡ leased
        → d.lease_token_hash ≡ some hash
        → d.lease_until ≡ some until
        → All (IsForeign hash until) cs
        → All (Spares d) cs
    All-Spares_foreign [] d hash until a b u h = tt
    All-Spares_foreign (c ∷ cs) d hash until a b u h =
        (foreign-Spares c d hash until a b u h.0, All-Spares_foreign cs d hash until a b u h.1)

    -- A leased delivery of a sound table is the same row after every history whose claims are not
    -- later than the end of the lease, and whose acknowledgements and failures carry tokens with
    -- other digests than the lease's: concurrent workers cannot take it over or settle it.
    pub run_leased :
        (cs : List (Time × Call)) (table : List Delivery) (d : Delivery) (hash : String)
        (until : Time)
        → IsSoundTable table
        → get delivery_key d.delivery_id table ≡ some d
        → d.status ≡ leased
        → d.lease_token_hash ≡ some hash
        → d.lease_until ≡ some until
        → All (IsForeign hash until) cs
        → get delivery_key d.delivery_id (run digest max_attempts cs table) ≡ some d
    run_leased cs table d hash until s g a b u h =
        get-run cs table d s g (All-Spares_foreign cs d hash until a b u h)
