-- ===== src/Warframe/Counts.antt =====
-- The counts of a polling batch.
use hermes_event_server.Base.{
  ℕ, ◌+◌, ◌≤◌, String, ◌≡◌, refl, ap, ◌∙◌, none, List, [], ◌∷◌, arith, length,
}
use hermes_event_server.Base.Equality.{string_eq, nat_eq, pair_eq}
use hermes_event_server.Base.Action.{Result, ok, err, Action, pure, bind-ok}
use hermes_event_server.Json.{Fields}
use hermes_event_server.Models.{Database}
use hermes_event_server.Leases.{ProviderLease, claim_due_providers}
use hermes_event_server.Leases.Exclusive.{claim_due_providers-IsExclusive}
use hermes_event_server.Warframe.Runner.{
  Runner, transaction, record_lease_failure, poll_lease, poll_leases, fail_leases, started_run,
  all_failed, poll, run_once, PollRunResult, counts_success, counts_failure, nothing_claimed,
}
use hermes_event_server.Warframe.Batch.{
  IsPolled, processed, unprocessed, poll_lease-IsPolled, record_lease_failure_lem, failed_database,
}
use hermes_event_server.Warframe.Transacted.{transaction_once}

-- The run `run'` has settled n more leases than `run`.
abbrev Settles : ℕ → PollRunResult → PollRunResult → Type 0
Settles n run run' =
    (run'.claimed ≡ run.claimed) × (run'.succeeded + run'.failed ≡ run.succeeded + run.failed + n)

module _ (runner : Runner) (faultless : (id : String) → runner.failure_faults id 0 ≡ none) where
  abbrev Returns : ℕ → PollRunResult → Result PollRunResult × Database → Type 0
  Returns n run r =
      (run' : PollRunResult) × (db : Database) × (r ≡ (ok run', db)) × Settles n run run'

  IsPolled-Returns :
      (lease : ProviderLease) (payload : Fields) (run : PollRunResult) (db : Database)
      (r : Result PollRunResult × Database)
      → IsPolled runner lease payload run db r
      → Returns 1 run r
  IsPolled-Returns lease payload run db _ (processed raw i result db' x p free) =
      (counts_success run result, db', refl, (refl, omega arith))
  IsPolled-Returns lease payload run db _ (unprocessed e x) =
      (counts_failure run, _, refl, (refl, omega arith))

  poll_leases-Returns :
      (leases : List ProviderLease) (payload : Fields) (run : PollRunResult) (db : Database)
      → Returns (length leases) run (poll_leases runner leases payload run db)
  unfolding poll_leases
  poll_leases-Returns [] payload run db = (run, db, refl, (refl, omega arith))
  poll_leases-Returns (lease ∷ leases) payload run db =
      let (run₁, db₁, e, (c, s)) =
        IsPolled-Returns lease payload run db (poll_lease runner lease payload run db) (
          poll_lease-IsPolled runner lease payload db run (faultless lease.provider_instance_id)) in
      let (run₂, db₂, e', (c', s')) = poll_leases-Returns leases payload run₁ db₁ in
      (
        run₂,
        db₂,
        bind-ok (poll_lease runner lease payload run) (poll_leases runner leases payload) db db₁
              run₁ e
            ∙ e',
        (c' ∙ c, omega (arith, s, s')),
      )

  fail_leases-Returns :
      (leases : List ProviderLease) (db : Database)
      → (db' : Database) × (fail_leases runner leases db ≡ (ok tt, db'))
  unfolding fail_leases
  fail_leases-Returns [] db = (db, refl)
  fail_leases-Returns (lease ∷ leases) db =
      let id = lease.provider_instance_id in
      let (db', e) = fail_leases-Returns leases (failed_database runner id db) in
      (
        db',
        bind-ok (record_lease_failure runner id) (λ _. fail_leases runner leases) db
              (failed_database runner id db) tt
              (record_lease_failure_lem runner id db (faultless id))
            ∙ e,
      )

  poll-Returns :
      (leases : List ProviderLease) (fetched : Result Fields) (db : Database)
      → Returns (length leases) (started_run runner leases) (poll runner leases fetched db)
  unfolding poll
  poll-Returns [] fetched db = (nothing_claimed, db, refl, (refl, refl))
  poll-Returns (lease ∷ leases) (ok payload) db =
      poll_leases-Returns (lease ∷ leases) payload (started_run runner (lease ∷ leases)) db
  poll-Returns (lease ∷ leases) (err e) db =
      let (db', q) = fail_leases-Returns (lease ∷ leases) db in
      (
        all_failed runner (lease ∷ leases),
        db',
        bind-ok (fail_leases runner (lease ∷ leases))
            (λ _. pure (all_failed runner (lease ∷ leases))) db db' tt q,
        (refl, omega arith),
      )

  -- When the first attempts to claim and to record failures are not ended by MySQL, a batch returns,
  -- whatever the client fetches or raises and whatever happens to the transactions that process the
  -- leases: it has claimed at most `limit` leases, and each of them has either succeeded or failed.
  pub run_once_counts :
      (limit : ℕ) (fetched : Result Fields) (db : Database)
      → runner.claim_faults 0 ≡ none
      → (run : PollRunResult) × (db' : Database) × (run_once runner limit fetched db
          ≡ (ok run, db'))
        × (run.claimed ≤ limit)
        × (run.succeeded + run.failed ≡ run.claimed)
  unfolding run_once
  run_once_counts limit fetched db h =
      let claim : ℕ → Action Database (List ProviderLease) = λ i.
        claim_due_providers (runner.locked i)
          (record { owner = runner.owner; limit = limit; lease_seconds = 60 }) (runner.now i) in
      let (leases, e, same, few, all) =
        claim_due_providers-IsExclusive
          (record { owner = runner.owner; limit = limit; lease_seconds = 60 }) (runner.now 0)
          (runner.locked 0) db in
      let (run, db', q, (c, s)) = poll-Returns leases fetched (claim 0 db).1 in
      (
        run,
        db',
        bind-ok (transaction runner.claim_faults claim) (λ leases. poll runner leases fetched) db
              (claim 0 db).1 leases
              (transaction_once runner.claim_faults claim db (claim 0 db).1 leases h
                (ap (λ r. (r, (claim 0 db).1)) e))
            ∙ q,
        omega (arith, few, c),
        omega (arith, c, s),
      )
