-- ===== src/Outbox/Moves.antt =====
-- The outbox as a machine on the stages of one delivery, which the code may take over from a worker
-- without bound, and that the change of each
-- call to a row is one of its steps.
use hermes_event_server.Base.{
  ℕ, ◌+◌, ◌<◌, String, ◌≡◌, refl, sym, subst, ◌⊎◌, inl, inr, Bool, true, ◌&&◌, Option, arith, ltb,
  Bool-cases,
}
use hermes_event_server.Base.Equality.{string_eq, nat_eq, pair_eq}
use hermes_event_server.Models.{Time, DeliveryStatus, pending, leased, retry, sent, dead, Delivery}
use hermes_event_server.Outbox.{
  ClaimRequest, claim, ack, fail, holds, eligible, lease_row, lease_rows, acked, failed,
  claim_statement, matches_claim,
}

-- A delivery waits, is held by a worker, was delivered, or was given up, after n attempts.
pub data Stage : Type 0 where
  waiting held delivered dropped : ℕ → Stage

abbrev pub stage_of : DeliveryStatus → ℕ → Stage
stage_of pending n = waiting n
stage_of retry n = waiting n
stage_of leased n = held n
stage_of sent n = delivered n
stage_of dead n = dropped n

abbrev pub stage : Delivery → Stage
stage d = stage_of d.status d.attempts

-- The steps of the machine; a delivery is given back only with attempts left.
pub data Step (max_attempts : ℕ) : Stage → Stage → Type 0 where
  taken : (n : ℕ) → Step max_attempts (waiting n) (held (n + 1))
  taken_over : (n : ℕ) → Step max_attempts (held n) (held (n + 1))
  confirmed : (n : ℕ) → Step max_attempts (held n) (delivered n)
  given_back : (n : ℕ) → n < max_attempts → Step max_attempts (held n) (waiting n)
  given_up : (n : ℕ) → Step max_attempts (held n) (dropped n)

-- What is to be delivered, and to whom, stays; the stage stays or makes one step.
pub record Moves (max_attempts : ℕ) (d e : Delivery) : Type 0 where
  pub event : e.event_id ≡ d.event_id
  pub recipient : (e.platform ≡ d.platform) × (e.openid ≡ d.openid)
  pub message : e.message ≡ d.message
  pub moved : (stage e ≡ stage d) ⊎ Step max_attempts (stage d) (stage e)

module _ (digest : String → String) (max_attempts : ℕ) where
  pub stays : (d : Delivery) → Moves max_attempts d d
  stays d = record { event = refl; recipient = (refl, refl); message = refl; moved = inl refl }

  eligible_at-Step :
      (s : DeliveryStatus) (n : ℕ) (next : Time) (lease : Option Time) (now : Time)
      → hermes_event_server.Outbox.eligible_at s next lease now ≡ true
      → Step max_attempts (stage_of s n) (held (n + 1))
  eligible_at-Step pending n next lease now h = taken n
  eligible_at-Step retry n next lease now h = taken n
  eligible_at-Step leased n next lease now h = taken_over n
  eligible_at-Step sent n next lease now h = absurd (ground (arith, h))
  eligible_at-Step dead n next lease now h = absurd (ground (arith, h))

  pub lease_row-Moves :
      (r : ClaimRequest) (now : Time) (token : String) (locked : String → Bool) (platform : String)
      (d : Delivery)
      → matches_claim locked platform now d ≡ true
      → Moves max_attempts d (lease_row digest r now token d)
  unfolding lease_row eligible
  lease_row-Moves r now token locked platform d h = record {
    event = refl;
    recipient = (refl, refl);
    message = refl;
    moved = inr (
        eligible_at-Step d.status d.attempts d.next_attempt_at d.lease_until now
          (ground (arith, h)));
  }

  held_stage :
      (d : Delivery) (token : String) (now : Time)
      → holds digest d token now ≡ true
      → d.status ≡ leased
  unfolding holds
  held_stage d token now h = ground (arith, h)

  pub acked-Moves :
      (sent_at : Option Time) (message_id : Option String) (now : Time) (token : String)
      (d : Delivery)
      → holds digest d token now ≡ true
      → Moves max_attempts d (acked sent_at message_id now d)
  unfolding acked
  acked-Moves sent_at message_id now token d h = record {
    event = refl;
    recipient = (refl, refl);
    message = refl;
    moved = inr (
        subst (λ s. Step max_attempts (stage_of s d.attempts) (delivered d.attempts))
          (sym (held_stage d token now h)) (confirmed d.attempts));
  }

  pub failed-Moves :
      (code : String) (retryable : Bool) (now : Time) (token : String) (d : Delivery)
      → holds digest d token now ≡ true
      → Moves max_attempts d (failed max_attempts code retryable now d)
  unfolding failed
  failed-Moves code retryable now token d h =
      elim (Bool-cases (retryable && ltb d.attempts max_attempts)) [
        | inl q ↦ rw q (record {
          event = refl;
          recipient = (refl, refl);
          message = refl;
          moved = inr (
              subst (λ s. Step max_attempts (stage_of s d.attempts) (waiting d.attempts))
                (sym (held_stage d token now h)) (given_back d.attempts (ground (arith, q))));
        })
        | inr q ↦ rw q (record {
          event = refl;
          recipient = (refl, refl);
          message = refl;
          moved = inr (
              subst (λ s. Step max_attempts (stage_of s d.attempts) (dropped d.attempts))
                (sym (held_stage d token now h)) (given_up d.attempts));
        })
      ]
