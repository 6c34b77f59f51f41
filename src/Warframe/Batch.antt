-- ===== src/Warframe/Batch.antt =====
-- A polling batch: each lease is processed and released in one transaction, or its failure is recorded.
use hermes_event_server.Base.{
  ℕ, String, ◌≡◌, refl, sym, ap, subst, ◌∙◌, inl, inr, Bool, true, false, none, if◌then◌else◌,
  Bool-cases,
}
use hermes_event_server.Base.Equality.{string_eq, nat_eq, pair_eq}
use hermes_event_server.Base.Table.{get, put, get-put_at, put-put_at}
use hermes_event_server.Base.Action.{
  Error, Result, Result-cases, ok, err, Action, pure, lift, bind-ok, bind-err,
}
use hermes_event_server.Json.{Fields}
use hermes_event_server.Models.{ProviderCheckpoint, Database, checkpoint_key}
use hermes_event_server.Registry.{Raw}
use hermes_event_server.Leases.{ProviderLease, release_provider_lease, is_owned, or_new_checkpoint}
use hermes_event_server.Leases.Exclusive.{or_new_checkpoint-key}
use hermes_event_server.Processing.{
  ProcessingResult, record_failure, failed_once, get_or_add_checkpoint,
}
use hermes_event_server.Warframe.WorldState.{extract}
use hermes_event_server.Warframe.Runner.{
  Runner, transaction, process_lease, failure_operation, record_lease_failure, extract_and_process,
  settle, poll_lease, PollRunResult, counts_success, counts_failure,
}
use hermes_event_server.Warframe.Freed.{IsFree, process_lease-IsFree}
use hermes_event_server.Warframe.Transacted.{Transacted, transaction-Transacted, transaction_once}

module _ (runner : Runner) where
  -- The lease is given back where the runner holds it.
  abbrev pub freed : ProviderCheckpoint → ProviderCheckpoint
  freed c =
      if is_owned c.lease_owner runner.owner
      then record c { lease_owner = none; lease_until = none }
      else c

  abbrev counted : String → Database → ProviderCheckpoint
  counted id db = failed_once (or_new_checkpoint (get checkpoint_key id db.checkpoints) id)

  -- The database with one more failure of the provider, and its lease given back.
  abbrev pub failed_database : String → Database → Database
  failed_database id db = record db {
    checkpoints = put checkpoint_key (freed (counted id db)) db.checkpoints;
  }

  recorded :
      (id : String) (db : Database)
      → record_failure id db
        ≡ (ok tt, record db { checkpoints = put checkpoint_key (counted id db) db.checkpoints })
  unfolding record_failure get_or_add_checkpoint
  recorded id db =
      rw
        (put-put_at checkpoint_key (counted id db)
          (or_new_checkpoint (get checkpoint_key id db.checkpoints) id) db.checkpoints refl)
        refl

  released :
      (id : String) (c : ProviderCheckpoint) (db : Database)
      → checkpoint_key c ≡ id
      → (b : Bool) × (release_provider_lease id runner.owner
            (record db { checkpoints = put checkpoint_key c db.checkpoints })
          ≡ (ok b, record db { checkpoints = put checkpoint_key (freed c) db.checkpoints }))
  unfolding release_provider_lease
  released id c db h = elim (Bool-cases (is_owned c.lease_owner runner.owner)) [
    | inl q ↦ (
      true,
      rw
          (
            get-put_at checkpoint_key id c db.checkpoints h,
            q,
            put-put_at checkpoint_key (record c { lease_owner = none; lease_until = none }) c
                db.checkpoints refl,
          )
          refl,
    )
    | inr q ↦ (false, rw (get-put_at checkpoint_key id c db.checkpoints h, q) refl)
  ]

  abbrev FailureIsKept : String → Database → Type 0
  FailureIsKept id db =
      (b : Bool) × (failure_operation runner id 0 db ≡ (ok b, failed_database id db))

  failure_operation_lem : (id : String) (db : Database) → FailureIsKept id db
  unfolding failure_operation
  failure_operation_lem id db =
      let (b, e) = released id (counted id db) db (or_new_checkpoint-key id db.checkpoints) in
      (
        b,
        bind-ok (record_failure id) (λ _. release_provider_lease id runner.owner) db
              (record db { checkpoints = put checkpoint_key (counted id db) db.checkpoints }) tt
              (recorded id db)
            ∙ e,
      )

  pub record_lease_failure_lem :
      (id : String) (db : Database)
      → runner.failure_faults id 0 ≡ none
      → record_lease_failure runner id db ≡ (ok tt, failed_database id db)
  unfolding record_lease_failure
  record_lease_failure_lem id db h =
      let (b, e) = failure_operation_lem id db in
      bind-ok (transaction (runner.failure_faults id) (failure_operation runner id)) (λ _. pure tt)
        db (failed_database id db) b
        (transaction_once (runner.failure_faults id) (failure_operation runner id) db
          (failed_database id db) b h e)

  -- How a turn for a lease ends.
  pub data IsPolled (lease : ProviderLease) (payload : Fields) (run : PollRunResult) (db : Database)
      : Result PollRunResult × Database → Type 0 where
    processed :
        (raw : Raw) (i : ℕ) (result : ProcessingResult) (db' : Database)
        → extract runner.int_text lease.provider_key payload ≡ ok raw
        → process_lease runner lease.provider_instance_id raw i db ≡ (ok result, db')
        → IsFree lease.provider_instance_id db'
        → IsPolled lease payload run db (ok (counts_success run result), db')
    unprocessed :
        (e : Error)
        → extract_and_process runner lease payload db ≡ (err e, db)
        → IsPolled lease payload run db
            (ok (counts_failure run), failed_database lease.provider_instance_id db)

  module _ (lease : ProviderLease) (payload : Fields) (db : Database) where
    abbrev the_transaction : Raw → Action Database ProcessingResult
    the_transaction raw =
        transaction (runner.process_faults lease.provider_instance_id)
          (process_lease runner lease.provider_instance_id raw)

    extracted :
        (raw : Raw)
        → extract runner.int_text lease.provider_key payload ≡ ok raw
        → extract_and_process runner lease payload db ≡ the_transaction raw db
    unfolding extract_and_process
    extracted raw q =
        bind-ok (lift (extract runner.int_text lease.provider_key payload)) the_transaction db db
          raw (ap (λ r. (r, db)) q)

    unextracted :
        (e : Error)
        → extract runner.int_text lease.provider_key payload ≡ err e
        → extract_and_process runner lease payload db ≡ (err e, db)
    unfolding extract_and_process
    unextracted e q =
        bind-err (lift (extract runner.int_text lease.provider_key payload)) the_transaction db db e
          (ap (λ r. (r, db)) q)

    abbrev IsExtracted : Result ProcessingResult × Database → Type 0
    IsExtracted (ok result, db') =
        (raw : Raw) × (i : ℕ) × (extract runner.int_text lease.provider_key payload ≡ ok raw)
        × (process_lease runner lease.provider_instance_id raw i db ≡ (ok result, db'))
    IsExtracted (err e, db') = db' ≡ db

    Transacted-IsExtracted :
        (raw : Raw) (r : Result ProcessingResult × Database)
        → extract runner.int_text lease.provider_key payload ≡ ok raw
        → Transacted
            (runner.process_faults lease.provider_instance_id)
            (process_lease runner lease.provider_instance_id raw)
            db
            r
        → IsExtracted r
    Transacted-IsExtracted raw (ok result, db') q (i, p) = (raw, i, q, p)
    Transacted-IsExtracted raw (err e, db') q p = p

    extract_and_process-IsExtracted : IsExtracted (extract_and_process runner lease payload db)
    extract_and_process-IsExtracted =
        elim (Result-cases (extract runner.int_text lease.provider_key payload)) [
          | inl (raw, q) ↦ subst IsExtracted (sym (extracted raw q)) (
              Transacted-IsExtracted raw (the_transaction raw db) q (
                transaction-Transacted (runner.process_faults lease.provider_instance_id)
                  (process_lease runner lease.provider_instance_id raw) db))
          | inr (e, q) ↦ subst IsExtracted (sym (unextracted e q)) refl
        ]

    settle-IsPolled :
        (run : PollRunResult) (r : Result ProcessingResult × Database)
        → extract_and_process runner lease payload db ≡ r
        → IsExtracted r
        → runner.failure_faults lease.provider_instance_id 0 ≡ none
        → IsPolled lease payload run db (settle runner lease.provider_instance_id run r)
    settle-IsPolled run (ok result, db') h (raw, i, x, p) n =
        processed raw i result db' x p
          (process_lease-IsFree runner lease.provider_instance_id raw i result db db' p)
    settle-IsPolled run (err e, db') h same n =
        let failed : settle runner lease.provider_instance_id run (err e, db')
            ≡ (ok (counts_failure run), failed_database lease.provider_instance_id db) =
          bind-ok (record_lease_failure runner lease.provider_instance_id)
            (λ _. pure (counts_failure run)) db' (failed_database lease.provider_instance_id db') tt
            (record_lease_failure_lem lease.provider_instance_id db' n)
          ∙ ap (λ d. (ok (counts_failure run), failed_database lease.provider_instance_id d))
              same in
        subst (IsPolled lease payload run db) (sym failed)
          (unprocessed e (h ∙ ap (λ d. (err e, d)) same))

    pub poll_lease-IsPolled :
        (run : PollRunResult)
        → runner.failure_faults lease.provider_instance_id 0 ≡ none
        → IsPolled lease payload run db (poll_lease runner lease payload run db)
    unfolding poll_lease
    poll_lease-IsPolled run n =
        settle-IsPolled run (extract_and_process runner lease payload db) refl
          extract_and_process-IsExtracted n
