-- ===== src/Tests/Deployment.antt =====
-- Runs of the deployment's bootstrap and of a retried transaction.
use hermes_event_server.Base.{ℕ, zero, suc, ◌≡◌, refl, Bool, true, some, [], ◌∷◌, arith, All}
use hermes_event_server.Base.Equality.{string_eq, nat_eq, pair_eq}
use hermes_event_server.Base.Action.{ok}
use hermes_event_server.Models.{Database, empty_database}
use hermes_event_server.Users.{may_administer, permission_snapshot}
use hermes_event_server.Bootstrap.{bootstrap, legacy_event_keys}
use hermes_event_server.Bootstrap.Effect.{IsOff, IsRetired, bootstrap_effect}
use hermes_event_server.Transactions.{
  Attempt, committed, operational_error, returned, run_with_deadlock_retry,
}
use hermes_event_server.Transactions.Retry.{run_commits}

abbrev after_bootstrap : Database
after_bootstrap = (bootstrap ("op" ∷ []) 5 empty_database).1

bootstrap_run : bootstrap ("op" ∷ []) 5 empty_database ≡ (ok tt, after_bootstrap)
unfolding bootstrap hermes_event_server.Bootstrap.adds_twice
bootstrap_run = refl

bootstrap_effect_example :
    All (λ o. may_administer (permission_snapshot "qqbot" o after_bootstrap) ≡ true) ("op" ∷ [])
    × All (λ k. IsOff k after_bootstrap.event_types) legacy_event_keys
    × All IsRetired after_bootstrap.instances
bootstrap_effect_example =
    bootstrap_effect ("op" ∷ []) 5 empty_database after_bootstrap bootstrap_run

-- A deadlock, then a commit.
abbrev second_time : ℕ → ℕ → Attempt ℕ Bool
second_time zero s = operational_error (some 1213)
second_time (suc i) s = committed true (suc s)

run_commits_example : run_with_deadlock_retry second_time 3 7 ≡ (returned true, (8, 1 ∷ []))
unfolding native.Mathlib.Decide.ℕ_discrete
run_commits_example =
    run_commits second_time 1 3 7 8 true (omega arith) ((1213, refl, refl), tt) refl
