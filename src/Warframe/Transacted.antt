-- ===== src/Warframe/Transacted.antt =====
-- providers/warframe/runner.py: what a transaction of the runner leaves in the database.
use hermes_event_server.Base.{ℕ, ◌≡◌, refl, none, List, arith}
use hermes_event_server.Base.Equality.{string_eq, nat_eq, pair_eq}
use hermes_event_server.Base.Action.{Result, ok, err, Action}
use hermes_event_server.Models.{Database}
use hermes_event_server.Transactions.{
  committed, Retried, returned, raised_operational, raised_other, run_with_deadlock_retry,
}
use hermes_event_server.Transactions.Retry.{run_returned, run-Bounded, run_commits, Bounded}
use hermes_event_server.Warframe.Runner.{Faults, db_attempt, outcome, transaction}

module _ {A : Type 0} (faults : Faults) (operation : ℕ → Action Database A) where
  abbrev Committed : Database → A → Database → Type 0
  Committed db a db' = (i : ℕ) × (operation i db ≡ (ok a, db'))

  attempt_committed :
      (i : ℕ) (db db' : Database) (a : A)
      → db_attempt faults operation i db ≡ committed a db'
      → operation i db ≡ (ok a, db')
  unfolding db_attempt
  attempt_committed i db db' a h = ground arith

  abbrev pub Transacted : Database → Result A × Database → Type 0
  Transacted db (ok a, db') = Committed db a db'
  Transacted db (err e, db') = db' ≡ db

  outcome-Transacted :
      (db : Database) (r : Retried A × (Database × List ℕ))
      → run_with_deadlock_retry (db_attempt faults operation) 3 db ≡ r
      → Bounded (db_attempt faults operation) 3 db r
      → Transacted db (outcome r)
  outcome-Transacted db (returned a, (db', slept)) h b =
      let (j, e) = run_returned (db_attempt faults operation) 3 db db' a slept h in
      (j, attempt_committed j db db' a e)
  outcome-Transacted db (raised_operational code, (db', slept)) h b = b.0
  outcome-Transacted db (raised_other e, (db', slept)) h b = b.0

  pub transaction-Transacted : (db : Database) → Transacted db (transaction faults operation db)
  unfolding transaction
  transaction-Transacted db =
      outcome-Transacted db (run_with_deadlock_retry (db_attempt faults operation) 3 db) refl
        (run-Bounded (db_attempt faults operation) 3 db)

  pub transaction_once :
      (db db' : Database) (a : A)
      → faults 0 ≡ none
      → operation 0 db ≡ (ok a, db')
      → transaction faults operation db ≡ (ok a, db')
  unfolding transaction db_attempt
  transaction_once db db' a h e =
      rw
        (run_commits (db_attempt faults operation) 0 3 db db' a (omega arith) tt
          (ground (arith, h, e)))
        refl
