-- ===== src/Tests/Warframe.antt =====
-- Runs of the Warframe providers on a world state.
use hermes_event_server.Base.{
  ℕ, ◌+◌, ◌≤◌, String, ◌≡◌, refl, true, false, Option, none, some, List, [], ◌∷◌, map, leb, nat_beq,
  if◌then◌else◌, any, sort_by,
}
use hermes_event_server.Base.Equality.{◌==◌, string_eq, nat_eq, pair_eq, string_discrete}
use hermes_event_server.Base.Table.{get, put}
use hermes_event_server.Base.Action.{ok}
use hermes_event_server.Json.{
  Json, Fields, bool, int, str, list, dict, nil, cons, end, field, get_field,
}
use hermes_event_server.Models.{
  Time, seconds, ProviderInstance, Observation, Database, empty_database,
}
use hermes_event_server.Base.Int.{ℤ, pos}
use hermes_event_server.Registry.{Raw, ProviderRegistry, new_registry, Datetime}
use hermes_event_server.Publication.{Context}
use hermes_event_server.Leases.{ProviderLease}
use hermes_event_server.Warframe.{Environment, observation}
use hermes_event_server.Warframe.WorldState.{
  cetus_night, ghoul_event, extract, observed_time, cetus_mission, bson_date, objects, cetus_report,
  inactive,
}
use hermes_event_server.Warframe.Times.{epoch, to_minute, timestamp}
use hermes_event_server.Warframe.CetusNight.{normalize, evaluate, started}
use hermes_event_server.Warframe.Phases.{IsPhase, cetus_night-IsPhase}
use hermes_event_server.Warframe.Goals.{Reports, is_running, ghoul_event-Reports}
use hermes_event_server.Warframe.Runner.{
  Runner, build_registry, poll_lease, run_once, PollRunResult,
}
use hermes_event_server.Warframe.Counts.{run_once_counts}

abbrev environment : Environment
environment = record {
  now = epoch;
  uuid5 = (λ s. s);
  isoformat = (λ t. "");
  fromisoformat = (λ s. none);
  text_of = (λ v. "");
}

abbrev int_text : String → Option ℤ
int_text s = if s == "6000500" then some (pos 6_000_500) else none

-- The bounty ends 6000 seconds after the epoch, at the minute.
abbrev date : Json
date = dict (field "$date" (dict (field "$numberLong" (str "6000500") end)) end)

abbrev mission : Fields
mission = field "Tag" (str "CetusSyndicate") (field "Expiry" date end)

abbrev world_state : Fields
world_state =
    field "Time" (int (pos 4000))
      (field "SyndicateMissions" (list (cons (dict mission) nil)) (field "Goals" (list nil) end))

abbrev night : Raw
night =
    cetus_report int_text (epoch + seconds 6000) "night" true (epoch + seconds 4000)
      (epoch + seconds 3000) (epoch + seconds 6000)

abbrev day_before : Observation
day_before =
    observation "warframe.cetus_night" "cetus:0:day" epoch epoch none
      (field "is_night" (bool false) end)

night_run : cetus_night int_text world_state ≡ ok night
unfolding cetus_night observed_time hermes_event_server.Warframe.WorldState.epoch_seconds
    string_discrete hermes_event_server.Warframe.Times.from_seconds cetus_mission objects bson_date
    hermes_event_server.Warframe.Times.from_milliseconds
    hermes_event_server.Warframe.WorldState.cetus_phase to_minute
    hermes_event_server.Warframe.WorldState.seconds_before
night_run = refl

cetus_night-IsPhase_example :
    (o : Observation) × (mission : Fields) × (expiry : Time) × (normalize environment night ≡ ok o)
    × (observed_time world_state ≡ ok o.observed_at)
    × (cetus_mission world_state ≡ ok mission)
    × (bson_date int_text (get_field "Expiry" mission) ≡ ok expiry)
    × IsPhase environment (to_minute expiry) o
    × (evaluate environment (some day_before) o
        ≡ ok (
            if leb (to_minute expiry) (o.observed_at + seconds 3000)
            then started environment o ∷ []
            else []))
unfolding observation string_discrete
cetus_night-IsPhase_example =
    cetus_night-IsPhase environment int_text world_state night day_before false night_run refl

ghouls_run : ghoul_event int_text world_state ≡ ok (inactive int_text (epoch + seconds 4000))
unfolding ghoul_event observed_time hermes_event_server.Warframe.WorldState.epoch_seconds
    string_discrete hermes_event_server.Warframe.Times.from_seconds objects
    hermes_event_server.Warframe.WorldState.first_active
ghouls_run = refl

ghoul_event-Reports_example :
    (t : Time) × (goals : List Fields) × (observed_time world_state ≡ ok t)
    × (objects (get_field "Goals" world_state) ≡ ok goals)
    × Reports int_text environment t
        (inactive int_text (epoch + seconds 4000))
        (any (is_running int_text t) goals)
ghoul_event-Reports_example =
    ghoul_event-Reports int_text environment world_state (inactive int_text (epoch + seconds 4000))
      ghouls_run

registered_keys :
    map (λ e. e.0) (build_registry environment none new_registry).1.events
    ≡ "warframe.cetus.night" ∷ "warframe.konzu.rotation" ∷ "warframe.ghoul.started" ∷ []
unfolding build_registry hermes_event_server.Warframe.Runner.register_all
    hermes_event_server.Registry.register get put string_discrete
    hermes_event_server.Registry.register_events
registered_keys = refl

abbrev contexts : String → ℕ → ℕ → Context
contexts id i j = record {
  matches = (λ p v. none);
  repr = (λ v. "");
  uuids = (λ j. "");
  now = epoch;
  others = [];
}

-- The first attempt to process is ended as a deadlock, the second by another error.
abbrev runner : Runner
runner = record {
  registry = (build_registry environment none new_registry).1;
  owner = "s1";
  sha256 = (λ s. s);
  dumps = (λ fs. "{}");
  int_text = int_text;
  locked = (λ i id. false);
  now = (λ i. epoch);
  contexts = contexts;
  claim_faults = (λ i. none);
  process_faults = (λ id i. if nat_beq i 0 then some (some 1213) else some none);
  failure_faults = (λ id i. none);
}

abbrev cetus : ProviderInstance
cetus = record {
  provider_instance_id = "c1";
  provider_key = "warframe.cetus_night";
  capability = "polling";
  config = end;
  enabled = true;
  interval_seconds = some 60;
  next_run_at = none;
}

abbrev cetus_db : Database
cetus_db = record empty_database { instances = cetus ∷ [] }

abbrev lease : ProviderLease
lease = record {
  provider_instance_id = "c1";
  provider_key = "warframe.cetus_night";
  config = end;
  lease_until = epoch;
}

run_once_counts_example :
    (run : PollRunResult) × (db' : Database) × (run_once runner 10 (ok world_state) cetus_db
      ≡ (ok run, db'))
    × (run.claimed ≤ 10)
    × (run.succeeded + run.failed ≡ run.claimed)
run_once_counts_example = run_once_counts runner (λ id. refl) 10 (ok world_state) cetus_db refl

-- With no faults the provider's first observation is the baseline of its checkpoint.
baseline_run :
    (run_once (record runner { process_faults = (λ id i. none) }) 10 (ok world_state) cetus_db).0
    ≡ ok (record {
      claimed = 1;
      succeeded = 1;
      failed = 0;
      baselines_created = 1;
      events_published = 0;
    })
unfolding run_once hermes_event_server.Warframe.Runner.transaction
    hermes_event_server.Transactions.run_with_deadlock_retry
    hermes_event_server.Transactions.attempt_from hermes_event_server.Warframe.Runner.db_attempt
    hermes_event_server.Leases.claim_due_providers hermes_event_server.Leases.lease_providers
    hermes_event_server.Leases.lease_provider hermes_event_server.Leases.due_provider_statement
    sort_by hermes_event_server.Leases.is_due get put hermes_event_server.Warframe.Runner.poll
    hermes_event_server.Warframe.Runner.poll_leases poll_lease
    hermes_event_server.Warframe.Runner.extract_and_process extract string_discrete
    hermes_event_server.Warframe.Runner.process_lease hermes_event_server.Processing.process
    hermes_event_server.Processing.process_change hermes_event_server.Processing.save_observation
    hermes_event_server.Processing.get_or_add_checkpoint hermes_event_server.Processing.publish_all
    hermes_event_server.Leases.release_provider_lease cetus_night
    hermes_event_server.Registry.get_provider build_registry
    hermes_event_server.Warframe.Runner.register_all hermes_event_server.Registry.register
    hermes_event_server.Registry.register_events evaluate normalize observation
    hermes_event_server.Warframe.raw_get hermes_event_server.Warframe.parse_time
    hermes_event_server.Warframe.optional_time hermes_event_server.Warframe.require_str
    hermes_event_server.Warframe.require_bool hermes_event_server.Processing.previous
    hermes_event_server.Processing.state_hash observed_time
    hermes_event_server.Warframe.WorldState.epoch_seconds
    hermes_event_server.Warframe.Times.from_seconds cetus_mission objects bson_date
    hermes_event_server.Warframe.Times.from_milliseconds
    hermes_event_server.Warframe.WorldState.cetus_phase to_minute
    hermes_event_server.Warframe.WorldState.seconds_before
baseline_run = refl
