-- ===== src/Transactions/Retry.antt =====
-- How often a transaction is run, and when it succeeds.
use hermes_event_server.Base.{
  ℕ, zero, suc, ◌+◌, ◌-◌, ◌^◌, ◌≤◌, ◌<◌, ◌≡◌, refl, subst, ◌∙◌, ◌⊎◌, inl, inr, true, false, not,
  ◌||◌, Option, some, List, [], ◌∷◌, arith, nat_beq, Bool-cases, length,
}
use hermes_event_server.Base.Equality.{string_eq, nat_eq, pair_eq}
use hermes_event_server.Base.Action.{Error}
use hermes_event_server.Transactions.{
  Attempt, committed, operational_error, other_error, Retried, returned, raised_operational,
  raised_other, is_retriable, attempt_from, run_with_deadlock_retry,
}

module _ {S A : Type 0} (attempts : ℕ → S → Attempt S A) where
  -- The attempts from number i on that are ended as a deadlock or a lock timeout.
  abbrev pub AreDeadlocks : ℕ → ℕ → S → Type 0
  AreDeadlocks zero i s = Unit
  AreDeadlocks (suc n) i s =
      ((code : ℕ) × (attempts i s ≡ operational_error (some code))
        × (is_retriable (some code) ≡ true))
      × AreDeadlocks n (suc i) s

  -- The delays before the next n attempts.
  abbrev pub delays : ℕ → ℕ → List ℕ
  delays zero i = []
  delays (suc n) i = 2 ^ i ∷ delays n (suc i)

  attempt_commits :
      (left i : ℕ) (s s' : S) (a : A)
      → attempts i s ≡ committed a s'
      → attempt_from attempts (suc left) i s ≡ (returned a, (s', []))
  unfolding attempt_from
  attempt_commits left i s s' a e = ground arith

  attempt_raises :
      (left i : ℕ) (s : S) (x : Error)
      → attempts i s ≡ other_error x
      → attempt_from attempts (suc left) i s ≡ (raised_other x, (s, []))
  unfolding attempt_from
  attempt_raises left i s x e = ground arith

  attempt_ends :
      (left i : ℕ) (s : S) (code : Option ℕ)
      → attempts i s ≡ operational_error code
      → not (is_retriable code) || nat_beq left 0 ≡ true
      → attempt_from attempts (suc left) i s ≡ (raised_operational code, (s, []))
  unfolding attempt_from
  attempt_ends left i s code e last = ground arith

  attempt_repeats :
      (left i : ℕ) (s : S) (code : Option ℕ)
      → attempts i s ≡ operational_error code
      → not (is_retriable code) || nat_beq left 0 ≡ false
      → let rest = attempt_from attempts left (suc i) s in
        attempt_from attempts (suc left) i s ≡ (rest.0, (rest.1.0, 2 ^ i ∷ rest.1.1))
  unfolding attempt_from
  attempt_repeats left i s code e more = ground arith

  commit_from :
      (n left i j : ℕ) (s s' : S) (a : A)
      → n < left
      → AreDeadlocks n i s
      → j ≡ n + i
      → attempts j s ≡ committed a s'
      → attempt_from attempts left i s ≡ (returned a, (s', delays n i))
  unfolding attempt_from
  commit_from n zero i j s s' a lt d p e = absurd (omega arith)
  commit_from zero (suc left) i j s s' a lt d p e =
      let same : j ≡ i = omega arith in
      let now : attempts i s ≡ committed a s' = subst (λ x. attempts x s ≡ committed a s') same e in
      attempt_commits left i s s' a now
  commit_from (suc n) (suc left) i j s s' a lt ((code, f, r), d) p e =
      let more : nat_beq left 0 ≡ false = ground arith in
      attempt_repeats left i s (some code) f (rw (r, more) refl)
      ∙ rw (commit_from n left (suc i) j s s' a (omega arith) d (omega arith) e) refl

  -- If the first n attempts are ended as a deadlock or a lock timeout and the next one commits, within
  -- the number of attempts, the transaction returns that attempt's result and state, having slept
  -- once, twice, four times, .. the base delay.
  pub run_commits :
      (n max_attempts : ℕ) (s s' : S) (a : A)
      → n < max_attempts
      → AreDeadlocks n 0 s
      → attempts n s ≡ committed a s'
      → run_with_deadlock_retry attempts max_attempts s ≡ (returned a, (s', delays n 0))
  unfolding run_with_deadlock_retry
  run_commits n max_attempts s s' a lt d e =
      commit_from n max_attempts 0 n s s' a lt d (omega arith) e

  -- What is slept and changed: an attempt that is not committed leaves the state.
  abbrev pub Bounded : ℕ → S → Retried A × (S × List ℕ) → Type 0
  Bounded left s (returned a, (s', slept)) = length slept < left
  Bounded left s (raised_operational code, (s', slept)) = (s' ≡ s) × (length slept ≤ left - 1)
  Bounded left s (raised_other e, (s', slept)) = (s' ≡ s) × (length slept ≤ left - 1)

  Attempt-cases :
      (x : Attempt S A)
      → ((a : A) × (s : S) × (x ≡ committed a s))
        ⊎ (((code : Option ℕ) × (x ≡ operational_error code)) ⊎ ((e : Error) × (x ≡ other_error e)))
  Attempt-cases (committed a s) = inl (a, s, refl)
  Attempt-cases (operational_error code) = inr (inl (code, refl))
  Attempt-cases (other_error e) = inr (inr (e, refl))

  Bounded-delay :
      (left delay : ℕ) (s : S) (r : Retried A × (S × List ℕ))
      → 1 ≤ left
      → Bounded left s r
      → Bounded (suc left) s (r.0, (r.1.0, delay ∷ r.1.1))
  Bounded-delay left delay s (returned a, (s', slept)) h b = omega arith
  Bounded-delay left delay s (raised_operational code, (s', slept)) h b = (b.0, omega (arith, b.1))
  Bounded-delay left delay s (raised_other e, (s', slept)) h b = (b.0, omega (arith, b.1))

  pub attempt_from-Bounded : (left i : ℕ) (s : S) → Bounded left s (attempt_from attempts left i s)
  unfolding attempt_from
  attempt_from-Bounded zero i s = (refl, omega arith)
  attempt_from-Bounded (suc left) i s = elim (Attempt-cases (attempts i s)) [
    | inl (a, s', e) ↦ rw (attempt_commits left i s s' a e) (omega arith)
    | inr (inr (x, e)) ↦ rw (attempt_raises left i s x e) (refl, omega arith)
    | inr (inl (code, e)) ↦ elim (Bool-cases (not (is_retriable code) || nat_beq left 0)) [
      | inl last ↦ rw (attempt_ends left i s code e last) (refl, omega arith)
      | inr more ↦ rw (attempt_repeats left i s code e more) (
          Bounded-delay left (2 ^ i) s (attempt_from attempts left (suc i) s) (ground arith)
            (attempt_from-Bounded left (suc i) s))
    ]
  ]

  -- However the attempts end, the transaction sleeps less often than it has attempts, and if it raises,
  -- the state is as it was.
  pub run-Bounded :
      (max_attempts : ℕ) (s : S)
      → Bounded max_attempts s (run_with_deadlock_retry attempts max_attempts s)
  unfolding run_with_deadlock_retry
  run-Bounded max_attempts s = attempt_from-Bounded max_attempts 0 s

  returned_from :
      (left i : ℕ) (s s' : S) (a : A) (slept : List ℕ)
      → attempt_from attempts left i s ≡ (returned a, (s', slept))
      → (j : ℕ) × (attempts j s ≡ committed a s')
  unfolding attempt_from
  returned_from zero i s s' a slept h = ground (arith, h)
  returned_from (suc left) i s s' a slept h = elim (Attempt-cases (attempts i s)) [
    | inl (b, t, e) ↦ (i, e ∙ ground (arith, rw (attempt_commits left i s t b e) at h))
    | inr (inr (x, e)) ↦ ground (arith, rw (attempt_raises left i s x e) at h)
    | inr (inl (code, e)) ↦ elim (Bool-cases (not (is_retriable code) || nat_beq left 0)) [
      | inl last ↦ ground (arith, rw (attempt_ends left i s code e last) at h)
      | inr more ↦
          let rest = attempt_from attempts left (suc i) s in
          returned_from left (suc i) s s' a rest.1.1
            (ground (arith, rw (attempt_repeats left i s code e more) at h))
    ]
  ]

  -- What a transaction returns is what one of its attempts committed, on the state that it began with.
  pub run_returned :
      (max_attempts : ℕ) (s s' : S) (a : A) (slept : List ℕ)
      → run_with_deadlock_retry attempts max_attempts s ≡ (returned a, (s', slept))
      → (j : ℕ) × (attempts j s ≡ committed a s')
  unfolding run_with_deadlock_retry
  run_returned max_attempts s s' a slept h = returned_from max_attempts 0 s s' a slept h
