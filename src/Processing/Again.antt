-- ===== src/Processing/Again.antt =====
-- An observation that was processed is unchanged when it comes again.
use hermes_event_server.Base.{
  ℕ, String, ◌≡◌, refl, inl, inr, true, false, some, List, [], arith, Bool-cases, Option-cases,
}
use hermes_event_server.Base.Equality.{string_eq, nat_eq, pair_eq}
use hermes_event_server.Base.Table.{get, put, get-put_at, key-get}
use hermes_event_server.Base.Action.{Result-cases, ok}
use hermes_event_server.Json.{Fields}
use hermes_event_server.Models.{
  ProviderInstance, ProviderCheckpoint, Observation, Database, instance_key, checkpoint_key,
}
use hermes_event_server.Registry.{Raw, Provider, ProviderRegistry, get_provider}
use hermes_event_server.Publication.{Context}
use hermes_event_server.Leases.{or_new_checkpoint}
use hermes_event_server.Leases.Exclusive.{or_new_checkpoint-key}
use hermes_event_server.Processing.{
  ProcessingResult, process, process_change, advanced, succeeded, previous, is_unchanged,
  publish_all, save_observation, get_or_add_checkpoint,
}
use hermes_event_server.Processing.Kept.{Keeps, publish_all-Keeps}

module _ (sha256 : String → String) (dumps : Fields → String) where
  -- Of an observation that was processed: its instance, its provider and its checkpoint.
  pub record IsProcessed (registry : ProviderRegistry) (id : String) (raw : Raw) (db db' : Database)
      (r : ProcessingResult) : Type 0 where
    pub instance_row : ProviderInstance
    pub found : get instance_key id db'.instances ≡ some instance_row
    pub enabled : instance_row.enabled ≡ true
    pub provider : Provider
    pub known : get_provider instance_row.provider_key registry ≡ some provider
    pub current : Observation
    pub normalized : provider.normalize raw ≡ ok current
    pub own : current.provider_key ≡ instance_row.provider_key
    pub checkpoint : ProviderCheckpoint
    pub saved : get checkpoint_key id db'.checkpoints ≡ some checkpoint
    pub unchanged : is_unchanged sha256 dumps checkpoint current ≡ true

  save_observation-Keeps :
      (id : String) (current : Observation) (db : Database)
      → Keeps db (save_observation id current db).1
  unfolding save_observation
  save_observation-Keeps id current db = ground arith

  -- Until the checkpoint is saved a change leaves instances and checkpoints alone.
  process_change-saves :
      (registry : ProviderRegistry) (contexts : ℕ → Context) (id : String) (provider : Provider)
      (c : ProviderCheckpoint) (current : Observation) (db db' : Database) (r : ProcessingResult)
      → process_change sha256 dumps registry contexts id provider c current db ≡ (ok r, db')
      → (db'.instances ≡ db.instances)
        × (db'.checkpoints ≡ put checkpoint_key (advanced sha256 dumps current c) db.checkpoints)
  unfolding process_change
  process_change-saves registry contexts id provider c current db db' r h =
      elim (Result-cases (provider.evaluate (previous c current) current)) [
        | inr (x, e) ↦ absurd (ground arith)
        | inl (events, e) ↦
            let db₁ = (save_observation id current db).1 in
            elim (Result-cases (publish_all registry contexts 0 events db₁).0) [
              | inr (x, f) ↦ absurd (unfold save_observation in ground arith)
              | inl (rs, f) ↦
                  let kept = publish_all-Keeps registry contexts 0 events db₁ in
                  let saved = save_observation-Keeps id current db in
                  unfold save_observation in
                  (ground (arith, kept.0, saved.0), ground (arith, kept.1, saved.1))
            ]
      ]

  advanced-unchanged :
      (current : Observation) (c : ProviderCheckpoint)
      → is_unchanged sha256 dumps (advanced sha256 dumps current c) current ≡ true
  advanced-unchanged current c = ground arith

  process-IsProcessed :
      (registry : ProviderRegistry) (contexts : ℕ → Context) (id : String) (raw : Raw)
      (db db' : Database) (r : ProcessingResult)
      → process sha256 dumps registry contexts id raw db ≡ (ok r, db')
      → IsProcessed registry id raw db db' r
  unfolding process
  process-IsProcessed registry contexts id raw db db' r h =
      elim (Option-cases (get instance_key id db.instances)) [
        | inl e ↦ absurd (ground arith)
        | inr (p, e) ↦ elim (Option-cases (get_provider p.provider_key registry)) [
          | inl f ↦ absurd (ground arith)
          | inr (provider, f) ↦ elim (Result-cases (provider.normalize raw)) [
            | inr (x, n) ↦ absurd (ground arith)
            | inl (current, n) ↦
                let c = or_new_checkpoint (get checkpoint_key id db.checkpoints) id in
                let db₁ = record db { checkpoints = put checkpoint_key c db.checkpoints } in
                elim (Bool-cases (is_unchanged sha256 dumps c current)) [
                  | inl same ↦
                      let same_instances : db'.instances ≡ db.instances =
                        unfold get_or_add_checkpoint in ground arith in
                      let w : db'.checkpoints
                          ≡ put checkpoint_key (succeeded current c) db₁.checkpoints =
                        unfold get_or_add_checkpoint in ground arith in
                      record {
                        instance_row = p;
                        found = rw same_instances e;
                        enabled = ground arith;
                        provider = provider;
                        known = f;
                        current = current;
                        normalized = n;
                        own = ground arith;
                        checkpoint = succeeded current c;
                        saved = rw w (
                            get-put_at checkpoint_key id (succeeded current c) db₁.checkpoints
                              (or_new_checkpoint-key id db.checkpoints));
                        unchanged = same;
                      }
                  | inr different ↦
                      let changed : process_change sha256 dumps registry contexts id provider c
                            current db₁
                          ≡ (ok r, db') =
                        unfold get_or_add_checkpoint in ground arith in
                      let parts =
                        process_change-saves registry contexts id provider c current db₁ db' r
                          changed in
                      let w : db'.checkpoints
                          ≡ put checkpoint_key (advanced sha256 dumps current c) db₁.checkpoints =
                        parts.1 in
                      record {
                        instance_row = p;
                        found = rw parts.0 e;
                        enabled = ground arith;
                        provider = provider;
                        known = f;
                        current = current;
                        normalized = n;
                        own = ground arith;
                        checkpoint = advanced sha256 dumps current c;
                        saved = rw w (
                            get-put_at checkpoint_key id (advanced sha256 dumps current c)
                              db₁.checkpoints (or_new_checkpoint-key id db.checkpoints));
                        unchanged = advanced-unchanged current c;
                      }
                ]
          ]
        ]
      ]

  or_found :
      (id : String) (c : ProviderCheckpoint) (cs : List ProviderCheckpoint)
      → get checkpoint_key id cs ≡ some c
      → or_new_checkpoint (get checkpoint_key id cs) id ≡ c
  or_found id c cs e = rw e refl

  again-unchanged :
      (registry : ProviderRegistry) (contexts : ℕ → Context) (id : String) (raw : Raw)
      (db₀ db : Database) (r : ProcessingResult) (p : IsProcessed registry id raw db₀ db r)
      → process sha256 dumps registry contexts id raw db ≡ (
        ok (record { baseline_created = false; unchanged = true; publications = [] }),
        record db {
          checkpoints =
              put checkpoint_key
                (succeeded p.current p.checkpoint)
                (put checkpoint_key p.checkpoint db.checkpoints);
        },
      )
  unfolding process get_or_add_checkpoint
  again-unchanged registry contexts id raw db₀ db r p = ground (
    arith,
    p.found,
    p.enabled,
    p.known,
    p.normalized,
    p.own,
    p.unchanged,
    or_found id p.checkpoint db.checkpoints p.saved,
  )

  -- Raw data that was processed without an error is unchanged when it comes again, whatever its
  -- publications meet: nothing is published, no observation, occurrence or delivery is written, and
  -- the failures are counted from zero.
  pub process_again :
      (registry : ProviderRegistry) (contexts contexts' : ℕ → Context) (id : String) (raw : Raw)
      (db db' : Database) (r : ProcessingResult)
      → process sha256 dumps registry contexts id raw db ≡ (ok r, db')
      → let again = process sha256 dumps registry contexts' id raw db' in
        (again.0 ≡ ok (record { baseline_created = false; unchanged = true; publications = [] }))
        × (again.1.observations ≡ db'.observations)
        × (again.1.occurrences ≡ db'.occurrences)
        × (again.1.deliveries ≡ db'.deliveries)
        × ((c : ProviderCheckpoint) × (get checkpoint_key id again.1.checkpoints ≡ some c)
            × (c.consecutive_failures ≡ 0))
  process_again registry contexts contexts' id raw db db' r h =
      let p = process-IsProcessed registry contexts id raw db db' r h in
      let key : p.checkpoint.provider_instance_id ≡ id =
        key-get checkpoint_key id p.checkpoint db'.checkpoints p.saved in
      let done = succeeded p.current p.checkpoint in
      rw (again-unchanged registry contexts' id raw db db' r p) (
        refl,
        refl,
        refl,
        refl,
        (
          done,
          get-put_at checkpoint_key id done (put checkpoint_key p.checkpoint db'.checkpoints) key,
          refl,
        ),
      )
