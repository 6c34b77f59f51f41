-- ===== src/Outbox/Stages.antt =====
-- Each call of the outbox takes every delivery through at most one step of the machine of Moves.
use hermes_event_server.Base.{
  ℕ, suc, String, ◌≡◌, refl, sym, subst, ◌∙◌, inl, inr, Bool, true, Option, some, List, [], ◌∷◌,
  arith, All, is_some, Bool-cases, Option-cases, All-map2,
}
use hermes_event_server.Base.Equality.{◌==◌, string_eq, nat_eq, pair_eq, distinct}
use hermes_event_server.Base.Table.{
  get, put, get-put, get-put_ne, get-put_at, key-get, IsKeyed, Found, rows-Found, All-get,
}
use hermes_event_server.Base.Action.{Result}
use hermes_event_server.Models.{Time, Delivery, delivery_key}
use hermes_event_server.Outbox.{
  ClaimRequest, claim, ack, fail, holds, lease_row, lease_rows, acked, failed, claim_statement,
  matches_claim,
}
use hermes_event_server.Outbox.Rows.{claim_statement-All, claim_statement_matches, lease_rows-All}
use hermes_event_server.Outbox.Lifecycle.{
  Call, claims, acks, fails, Settles, ack-Settles, fail-Settles, IsSoundTable, step,
}
use hermes_event_server.Outbox.Moves.{Moves, stays, lease_row-Moves, acked-Moves, failed-Moves}

module _ (digest : String → String) (max_attempts : ℕ) where
  -- The row with the key of `d` comes from `d`.
  From : Delivery → Delivery → Type 0
  From d x = x.delivery_id ≡ d.delivery_id → Moves max_attempts d x

  same_row :
      (table : List Delivery) (d x : Delivery)
      → get delivery_key d.delivery_id table ≡ some d
      → get delivery_key x.delivery_id table ≡ some x
      → x.delivery_id ≡ d.delivery_id
      → d ≡ x
  same_row table d x g found e =
      ground (arith, sym g ∙ subst (λ k. get delivery_key k table ≡ some x) e found)

  All-From :
      (table : List Delivery) (d : Delivery) (xs : List Delivery)
      → get delivery_key d.delivery_id table ≡ some d
      → All (λ x. get delivery_key x.delivery_id table ≡ some x) xs
      → All (From d) xs
  unfolding From
  All-From table d [] g h = tt
  All-From table d (x ∷ xs) g h = (
    λ e. subst (Moves max_attempts d) (same_row table d x g h.0 e) (stays digest max_attempts d),
    All-From table d xs g h.1,
  )

  lease_rows_kept :
      (r : ClaimRequest) (now : Time) (tokens : ℕ → String) (i : ℕ) (rows table : List Delivery)
      (id : String)
      → is_some (get delivery_key id table) ≡ true
      → is_some (get delivery_key id (lease_rows digest r now tokens i rows table).1) ≡ true
  unfolding lease_rows
  lease_rows_kept r now tokens i [] table id h = h
  lease_rows_kept r now tokens i (row ∷ rows) table id h =
      let next = lease_row digest r now (tokens i) row in
      ground (
        arith,
        lease_rows_kept r now tokens (suc i) rows (put delivery_key next table) id,
        get-put delivery_key id next table,
        h,
      )

  -- The row of `d` afterwards.
  abbrev pub Follows : Delivery → List Delivery → Type 0
  Follows d table =
      (e : Delivery) × (get delivery_key d.delivery_id table ≡ some e) × Moves max_attempts d e

  claim-Follows :
      (locked : String → Bool) (r : ClaimRequest) (now : Time) (tokens : ℕ → String)
      (table : List Delivery) (d : Delivery)
      → IsKeyed delivery_key table
      → get delivery_key d.delivery_id table ≡ some d
      → Follows d (claim digest locked r now tokens table).1
  unfolding claim From lease_row
  claim-Follows locked r now tokens table d k g =
      let selected = claim_statement locked r.platform r.limit now table in
      let final = (lease_rows digest r now tokens 0 selected table).1 in
      let found = rows-Found delivery_key table k in
      let both =
        All-map2
          {R = λ x.
            (get delivery_key x.delivery_id table ≡ some x)
            × (matches_claim locked r.platform now x ≡ true)}
          selected (λ x a b. (a, b))
          (claim_statement-All locked r.platform r.limit now table (Found delivery_key table) found)
          (claim_statement_matches locked r.platform r.limit now table) in
      let (rows, keyed) =
        lease_rows-All digest r now tokens (From d)
          (λ x.
            (get delivery_key x.delivery_id table ≡ some x)
            × (matches_claim locked r.platform now x ≡ true))
          (λ token x q e.
            subst (λ y. Moves max_attempts y (lease_row digest r now token x))
              (sym (same_row table d x g q.0 e))
              (lease_row-Moves digest max_attempts r now token locked r.platform x q.1))
          0 selected table both (All-From table d table g found) k in
      let there : is_some (get delivery_key d.delivery_id final) ≡ true =
        lease_rows_kept r now tokens 0 selected table d.delivery_id (rw g refl) in
      elim (Option-cases (get delivery_key d.delivery_id final)) [
        | inl q ↦ absurd (ground (arith, rw q at there))
        | inr (e, q) ↦ (
          e,
          q,
          All-get delivery_key (From d) d.delivery_id e final rows q
              (key-get delivery_key d.delivery_id e final q),
        )
      ]

  Settles-Follows :
      (f : Delivery → Delivery) (id token : String) (now : Time) (table : List Delivery)
      (r : Result Delivery × List Delivery) (d : Delivery)
      → ((x : Delivery) → (f x).delivery_id ≡ x.delivery_id)
      → ((x : Delivery) → holds digest x token now ≡ true → Moves max_attempts x (f x))
      → Settles digest f id token now table r
      → get delivery_key d.delivery_id table ≡ some d
      → Follows d r.1
  Settles-Follows f id token now table r d same moves (inl e) g =
      rw e (d, g, stays digest max_attempts d)
  Settles-Follows f id token now table r d same moves (inr (x, gx, hx, e)) g =
      elim (Bool-cases ((f x).delivery_id == d.delivery_id)) [
        | inl q ↦
            let here : (f x).delivery_id ≡ d.delivery_id = ground (arith, q) in
            let there : get delivery_key x.delivery_id table ≡ some x =
              subst (λ k. get delivery_key k table ≡ some x)
                (sym (key-get delivery_key id x table gx)) gx in
            rw e (
              f x,
              get-put_at delivery_key d.delivery_id (f x) table here,
              subst (λ y. Moves max_attempts y (f x))
                  (sym (same_row table d x g there (sym (same x) ∙ here))) (moves x hx),
            )
        | inr q ↦ rw e (
          d,
          get-put_ne delivery_key d.delivery_id (f x) table
                (distinct (f x).delivery_id d.delivery_id q)
              ∙ g,
          stays digest max_attempts d,
        )
      ]

  acked_key :
      (sent_at : Option Time) (message_id : Option String) (now : Time) (x : Delivery)
      → (acked sent_at message_id now x).delivery_id ≡ x.delivery_id
  unfolding acked
  acked_key sent_at message_id now x = refl

  failed_key :
      (code : String) (retryable : Bool) (now : Time) (x : Delivery)
      → (failed max_attempts code retryable now x).delivery_id ≡ x.delivery_id
  unfolding failed
  failed_key code retryable now x = ground arith

  pub step-Follows :
      (c : Time × Call) (table : List Delivery) (d : Delivery)
      → IsSoundTable table
      → get delivery_key d.delivery_id table ≡ some d
      → Follows d (step digest max_attempts c table)
  unfolding step
  step-Follows (now, claims locked r tokens) table d s g =
      claim-Follows locked r now tokens table d s.keyed g
  step-Follows (now, acks id token sent_at message_id) table d s g =
      Settles-Follows (acked sent_at message_id now) id token now table
        (ack digest id token sent_at message_id now table) d (acked_key sent_at message_id now)
        (acked-Moves digest max_attempts sent_at message_id now token)
        (ack-Settles digest id token sent_at message_id now table) g
  step-Follows (now, fails id token code retryable) table d s g =
      Settles-Follows (failed max_attempts code retryable now) id token now table
        (fail digest max_attempts id token code retryable now table) d
        (failed_key code retryable now) (failed-Moves digest max_attempts code retryable now token)
        (fail-Settles digest max_attempts id token code retryable now table) g
