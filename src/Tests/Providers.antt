-- ===== src/Tests/Providers.antt =====
-- Runs of the scheduler's leases and of the observation processor.
use hermes_event_server.Base.{
  ℕ, ◌≤◌, String, ◌≡◌, refl, Bool, true, false, none, some, List, [], ◌∷◌, map, All, sort_by,
  length,
}
use hermes_event_server.Base.Equality.{string_eq, nat_eq, pair_eq, string_discrete}
use hermes_event_server.Base.Table.{get}
use hermes_event_server.Base.Action.{runtime_error, ok, err}
use hermes_event_server.Json.{Fields, end}
use hermes_event_server.Models.{
  ProviderInstance, ProviderCheckpoint, Observation, Database, empty_database, checkpoint_key,
}
use hermes_event_server.Leases.{
  LeaseRequest, ProviderLease, claim_due_providers, due_provider_statement, provider_lease,
}
use hermes_event_server.Leases.Exclusive.{IsExclusive, claim_due_providers-IsExclusive}
use hermes_event_server.Registry.{Provider, ProviderRegistry}
use hermes_event_server.Publication.{Context}
use hermes_event_server.Processing.{ProcessingResult, process}
use hermes_event_server.Processing.Again.{process_again}

abbrev timer : ProviderInstance
timer = record {
  provider_instance_id = "p1";
  provider_key = "demo";
  capability = "polling";
  config = end;
  enabled = true;
  interval_seconds = some 60;
  next_run_at = none;
}

abbrev providers_db : Database
providers_db = record empty_database { instances = timer ∷ [] }

abbrev free : String → Bool
free id = false

abbrev lease_request : LeaseRequest
lease_request = record { owner = "s1"; limit = 10; lease_seconds = 60 }

claim_due_providers-IsExclusive_example :
    (leases : List ProviderLease) × ((claim_due_providers free lease_request 5 providers_db).0
      ≡ ok leases)
    × (leases
        ≡ map (provider_lease lease_request 5) (due_provider_statement free 10 5 providers_db))
    × (length leases ≤ 10)
    × All
        (IsExclusive lease_request 5 (claim_due_providers free lease_request 5 providers_db).1)
        leases
claim_due_providers-IsExclusive_example =
    claim_due_providers-IsExclusive lease_request 5 free providers_db

due_run :
    map (λ p. p.provider_instance_id) (due_provider_statement free 10 5 providers_db) ≡ "p1" ∷ []
unfolding due_provider_statement sort_by hermes_event_server.Leases.is_due get
due_run = refl

abbrev seen : Observation
seen = record {
  provider_key = "demo";
  schema_version = 1;
  identity = "i1";
  observed_at = 7;
  effective_at = 7;
  expires_at = none;
  state = end;
  source_metadata = end;
}

abbrev demo : Provider
demo = record {
  provider_key = "demo";
  event_keys = [];
  normalize = (λ raw. ok seen);
  evaluate = (λ previous current. ok []);
  render = (λ event. err runtime_error);
}

abbrev registry : ProviderRegistry
registry = record { providers = ("demo", demo) ∷ []; events = [] }

abbrev contexts : ℕ → Context
contexts i = record {
  matches = (λ p v. none);
  repr = (λ v. "");
  uuids = (λ j. "");
  now = 7;
  others = [];
}

abbrev digest : String → String
digest s = s

abbrev dumps : Fields → String
dumps fs = "{}"

abbrev baseline : ProcessingResult
baseline = record { baseline_created = true; unchanged = false; publications = [] }

abbrev after_process : Database
after_process = (process digest dumps registry contexts "p1" [] providers_db).1

process_run :
    process digest dumps registry contexts "p1" [] providers_db ≡ (ok baseline, after_process)
unfolding process get string_discrete hermes_event_server.Registry.get_provider
    hermes_event_server.Processing.get_or_add_checkpoint
    hermes_event_server.Processing.process_change hermes_event_server.Processing.save_observation
    hermes_event_server.Processing.publish_all
process_run = refl

process_again_example :
    let again = process digest dumps registry contexts "p1" [] after_process in
    (again.0 ≡ ok (record { baseline_created = false; unchanged = true; publications = [] }))
    × (again.1.observations ≡ after_process.observations)
    × (again.1.occurrences ≡ after_process.occurrences)
    × (again.1.deliveries ≡ after_process.deliveries)
    × ((c : ProviderCheckpoint) × (get checkpoint_key "p1" again.1.checkpoints ≡ some c)
        × (c.consecutive_failures ≡ 0))
process_again_example =
    process_again digest dumps registry contexts contexts "p1" [] providers_db after_process
      baseline process_run
