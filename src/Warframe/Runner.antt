-- ===== src/Warframe/Runner.antt =====
-- src/eventserver/providers/warframe/runner.py and providers/__init__.py: one polling batch. A
-- transaction is an action of one attempt or more, in `run_with_deadlock_retry`: `faults` says which
-- of its attempts MySQL ends, and with which code.
use hermes_event_server.Base.{
  ℕ, ◌+◌, String, Bool, true, not, Option, none, some, List, [], ◌∷◌, if◌then◌else◌, select, length,
}
use hermes_event_server.Base.Equality.{contains, string_eq, nat_eq, pair_eq}
use hermes_event_server.Base.Action.{
  runtime_error, Result, ok, err, Action, pure, lift, raise_if, ◌>>=◌, ◌>>◌,
}
use hermes_event_server.Json.{Fields}
use hermes_event_server.Models.{Time, Database}
use hermes_event_server.Base.Int.{ℤ}
use hermes_event_server.Registry.{Raw, Provider, ProviderRegistry, register}
use hermes_event_server.Leases.{ProviderLease, claim_due_providers, release_provider_lease}
use hermes_event_server.Publication.{PublicationResult, Context}
use hermes_event_server.Processing.{ProcessingResult, process, record_failure}
use hermes_event_server.Transactions.{
  Attempt, committed, operational_error, other_error, Retried, returned, raised_operational,
  raised_other, run_with_deadlock_retry,
}
use hermes_event_server.Base.Action.{database_error}
use hermes_event_server.Warframe.{Environment}
use hermes_event_server.Warframe.CetusNight.{cetus_night_provider}
use hermes_event_server.Warframe.KonzuRotation.{konzu_rotation_provider}
use hermes_event_server.Warframe.GhoulEvent.{ghoul_event_provider}
use hermes_event_server.Warframe.WorldState.{extract}

abbrev pub is_allowed : Option (List String) → String → Bool
is_allowed none key = true
is_allowed (some allowed) key = contains allowed key

unfoldable pub register_all :
    Option (List String) → List Provider → Action ProviderRegistry (Unit {0})
register_all allowed [] = pure tt
register_all allowed (p ∷ ps) =
    if is_allowed allowed p.provider_key
    then (register p >> register_all allowed ps)
    else register_all allowed ps

-- `build_registry`
unfoldable pub build_registry :
    Environment → Option (List String) → Action ProviderRegistry (Unit {0})
build_registry env enabled =
    register_all enabled
      (cetus_night_provider env ∷ konzu_rotation_provider env ∷ ghoul_event_provider env ∷ [])

pub record PollRunResult : Type 0 where
  pub claimed : ℕ
  pub succeeded : ℕ
  pub failed : ℕ
  pub baselines_created : ℕ
  pub events_published : ℕ

abbrev pub nothing_claimed : PollRunResult
nothing_claimed = record {
  claimed = 0;
  succeeded = 0;
  failed = 0;
  baselines_created = 0;
  events_published = 0;
}

abbrev pub counts_success : PollRunResult → ProcessingResult → PollRunResult
counts_success run r = record run {
  succeeded = run.succeeded + 1;
  baselines_created = run.baselines_created + (if r.baseline_created then 1 else 0);
  events_published =
      run.events_published + length (select (λ (p : PublicationResult). p.created) r.publications);
}

abbrev pub counts_failure : PollRunResult → PollRunResult
counts_failure run = record run { failed = run.failed + 1 }

-- When MySQL ends the i-th attempt of a transaction, the code of its error.
abbrev pub Faults : Type 0
Faults = ℕ → Option (Option ℕ)

-- What an attempt returns is committed unless MySQL ends it.
unfoldable pub db_attempt :
    {A : Type 0} → Faults → (ℕ → Action Database A) → ℕ → Database → Attempt Database A
db_attempt faults operation i db = elim (faults i) [
  | some code ↦ operational_error code
  | none ↦ elim (operation i db).0 [ ok a ↦ committed a (operation i db).1 | err e ↦ other_error e ]
]

abbrev pub outcome : {A : Type 0} → Retried A × (Database × List ℕ) → Result A × Database
outcome (returned a, s) = (ok a, s.0)
outcome (raised_operational code, s) = (err database_error, s.0)
outcome (raised_other e, s) = (err e, s.0)

-- `run_with_deadlock_retry` with its three attempts; the operation reads the clock in each.
unfoldable pub transaction : {A : Type 0} → Faults → (ℕ → Action Database A) → Action Database A
transaction faults operation db =
    outcome (run_with_deadlock_retry (db_attempt faults operation) 3 db)

-- The runner, and what it meets: the faults of its transactions, by lease for the last two; the
-- contexts of the publications of an attempt for a lease; the rows that others have locked.
pub record Runner : Type 0 where
  pub registry : ProviderRegistry
  pub owner : String
  pub sha256 : String → String
  pub dumps : Fields → String
  pub int_text : String → Option ℤ
  pub locked : ℕ → String → Bool
  pub now : ℕ → Time
  pub contexts : String → ℕ → ℕ → Context
  pub claim_faults : Faults
  pub process_faults : String → Faults
  pub failure_faults : String → Faults

module _ (runner : Runner) where
  -- `_process`
  unfoldable pub process_lease : String → Raw → ℕ → Action Database ProcessingResult
  process_lease id raw i = do
    result ← process runner.sha256 runner.dumps runner.registry (runner.contexts id i) id raw
    released ← release_provider_lease id runner.owner
    raise_if (not released) runtime_error
    pure result

  unfoldable pub failure_operation : String → ℕ → Action Database Bool
  failure_operation id i = do record_failure id; release_provider_lease id runner.owner

  -- `_record_failure`
  unfoldable pub record_lease_failure : String → Action Database (Unit {0})
  record_lease_failure id = do
    transaction (runner.failure_faults id) (failure_operation id)
    pure tt

  -- The body of the `try`.
  unfoldable pub extract_and_process : ProviderLease → Fields → Action Database ProcessingResult
  extract_and_process lease payload = do
    raw ← lift (extract runner.int_text lease.provider_key payload)
    transaction (runner.process_faults lease.provider_instance_id)
        (process_lease lease.provider_instance_id raw)

  abbrev pub settle :
      String → PollRunResult → Result ProcessingResult × Database → Result PollRunResult × Database
  settle id run (ok result, db) = (ok (counts_success run result), db)
  settle id run (err e, db) = (record_lease_failure id >> pure (counts_failure run)) db

  -- One turn of the loop.
  unfoldable pub poll_lease : ProviderLease → Fields → PollRunResult → Action Database PollRunResult
  poll_lease lease payload run db =
      settle lease.provider_instance_id run (extract_and_process lease payload db)

  unfoldable pub poll_leases :
      List ProviderLease → Fields → PollRunResult → Action Database PollRunResult
  poll_leases [] payload run = pure run
  poll_leases (lease ∷ leases) payload run = do
    next ← poll_lease lease payload run
    poll_leases leases payload next

  unfoldable pub fail_leases : List ProviderLease → Action Database (Unit {0})
  fail_leases [] = pure tt
  fail_leases (lease ∷ leases) = do
    record_lease_failure lease.provider_instance_id
    fail_leases leases

  abbrev pub started_run : List ProviderLease → PollRunResult
  started_run leases = record nothing_claimed { claimed = length leases }

  abbrev pub all_failed : List ProviderLease → PollRunResult
  all_failed leases = record (started_run leases) { failed = length leases }

  -- After the claim; `fetched` is what the client's `fetch` returns or raises.
  unfoldable pub poll : List ProviderLease → Result Fields → Action Database PollRunResult
  poll [] fetched = pure nothing_claimed
  poll (lease ∷ leases) (err e) = do
    fail_leases (lease ∷ leases)
    pure (all_failed (lease ∷ leases))
  poll (lease ∷ leases) (ok payload) =
      poll_leases (lease ∷ leases) payload (started_run (lease ∷ leases))

  unfoldable pub run_once : ℕ → Result Fields → Action Database PollRunResult
  run_once limit fetched = do
    leases ← transaction runner.claim_faults (λ i.
        claim_due_providers (runner.locked i)
          (record { owner = runner.owner; limit = limit; lease_seconds = 60 }) (runner.now i))
    poll leases fetched
