-- ===== src/Outbox/Retry.antt =====
-- Failures: the backoff, the retry limit, and how a lease ends.
use hermes_event_server.Base.{
  ℕ, zero, suc, ◌+◌, ◌-◌, ◌*◌, ◌^◌, ◌≤◌, ◌<◌, min, String, ◌≡◌, refl, sym, subst, ◌⊎◌, inl, inr,
  Bool, true, false, none, some, List, arith,
}
use hermes_event_server.Base.Equality.{string_eq, nat_eq, pair_eq}
use hermes_event_server.Base.Table.{get, put}
use hermes_event_server.Base.Action.{lease_conflict_error, Result, ok, err}
use hermes_event_server.Models.{Time, seconds, retry, dead, Delivery, delivery_key}
use hermes_event_server.Outbox.{holds, find_leased, backoff, failed, fail, eligible}
use hermes_event_server.Outbox.Lifecycle.{fail-Settles}
use native.Mathlib.Nat.{pow-suc}

pow_pos : (n : ℕ) → 1 ≤ 2 ^ n
pow_pos zero = omega arith
pow_pos (suc n) = omega (arith, pow-suc 2 n, pow_pos n)

-- The delay after the n-th attempt lies between five seconds and an hour.
pub backoff_bounds : (attempts : ℕ) → (5 ≤ backoff attempts) × (backoff attempts ≤ 3600)
unfolding backoff
backoff_bounds attempts = (omega (arith, pow_pos (attempts - 1)), omega arith)

-- It doubles with each further attempt until it meets the hour.
pub backoff-suc :
    (attempts : ℕ) → 1 ≤ attempts → backoff (suc attempts) ≡ min 3600 (2 * backoff attempts)
unfolding backoff
backoff-suc zero h = absurd (omega arith)
backoff-suc (suc n) h =
    let e : suc (suc n) - 1 ≡ suc n = omega arith in
    let f : suc n - 1 ≡ n = omega arith in rw (e, f, pow-suc) (omega arith)

-- Not both: a row that a token holds is open to no claim at that time.
pub eligible-holds :
    (digest : String → String) (d : Delivery) (token : String) (now : Time)
    → holds digest d token now ≡ true
    → eligible now d ≡ false
unfolding holds eligible
eligible-holds digest d token now h = ground arith

module _ (digest : String → String) (max_attempts : ℕ) (id token code : String) (retryable : Bool)
    (now : Time) (table : List Delivery) where
  -- What `fail` does to the row `d` that the key finds: on every branch.
  abbrev pub FailOutcome : Delivery → Result Delivery × List Delivery → Type 0
  FailOutcome d (err e, after) =
      (holds digest d token now ≡ false) × (e ≡ lease_conflict_error) × (after ≡ table)
  FailOutcome d (ok x, after) =
      (holds digest d token now ≡ true)
      × (after ≡ put delivery_key x table)
      × (x.attempts ≡ d.attempts)
      × (x.last_error_code ≡ some code)
      × (x.lease_owner ≡ none)
      × (x.lease_token_hash ≡ none)
      × (x.lease_until ≡ none)
      × (((retryable ≡ true)
            × (d.attempts < max_attempts)
            × (x.status ≡ retry)
            × (x.next_attempt_at ≡ now + seconds (backoff d.attempts)))
          ⊎ (((retryable ≡ false) ⊎ (max_attempts ≤ d.attempts))
              × (x.status ≡ dead)
              × (x.next_attempt_at ≡ d.next_attempt_at)))

  refused_unheld :
      (d : Delivery)
      → get delivery_key id table ≡ some d
      → fail digest max_attempts id token code retryable now table
        ≡ (err lease_conflict_error, table)
      → holds digest d token now ≡ false
  unfolding fail find_leased
  refused_unheld d g e = ground arith

  settled :
      (d : Delivery)
      → holds digest d token now ≡ true
      → FailOutcome d (
        ok (failed max_attempts code retryable now d),
        put delivery_key (failed max_attempts code retryable now d) table,
      )
  unfolding failed
  settled d h =
      (h, refl, ground arith, ground arith, ground arith, ground arith, ground arith, ground arith)

  -- `fail` on a delivery that the table has: without a matching lease it raises the conflict and
  -- writes nothing. Under the lease it counts no attempt, records the code and ends the lease;
  -- the delivery is to be retried after the backoff if the failure is retryable and attempts are
  -- left, and is dead otherwise.
  pub fail_outcome :
      (d : Delivery)
      → get delivery_key id table ≡ some d
      → FailOutcome d (fail digest max_attempts id token code retryable now table)
  fail_outcome d g = elim (fail-Settles digest max_attempts id token code retryable now table) [
    | inl e ↦ rw e (refused_unheld d g e, refl, refl)
    | inr (x, gx, h, e) ↦
        let same : x ≡ d = cc in
        rw e (
          subst
            (λ y. FailOutcome d (
              ok (failed max_attempts code retryable now y),
              put delivery_key (failed max_attempts code retryable now y) table,
            ))
            (sym same) (settled d (rw same at h)))
  ]
