-- ===== src/Warframe/Freed.antt =====
-- A provider that was processed no longer has its lease when the transaction ends.
use hermes_event_server.Base.{
  ℕ, String, ◌≡◌, refl, ap, subst, ◌∙◌, inl, inr, Bool, true, false, not, none, some, arith,
  Bool-cases, Option-cases,
}
use hermes_event_server.Base.Equality.{string_eq, nat_eq, pair_eq}
use hermes_event_server.Base.Table.{get, put, get-put_self, key-get}
use hermes_event_server.Base.Action.{Result, ok, err, Action, raise_if, pure, runtime_error, ◌>>=◌}
use hermes_event_server.Models.{ProviderCheckpoint, Database, checkpoint_key}
use hermes_event_server.Registry.{Raw}
use hermes_event_server.Leases.{is_owned, release_provider_lease}
use hermes_event_server.Processing.{ProcessingResult, process}
use hermes_event_server.Warframe.Runner.{Runner, process_lease}

module _ {S A B : Type 0} (m : Action S A) (f : A → Action S B) where
  returned_of :
      (r : Result A × S) (s' : S) (b : B)
      → (elim r.0 [ ok a ↦ f a r.1 | err e ↦ (err e, r.1) ]) ≡ (ok b, s')
      → (a : A) × (t : S) × (r ≡ (ok a, t)) × (f a t ≡ (ok b, s'))
  returned_of (ok a, t) s' b h = (a, t, refl, h)
  returned_of (err e, t) s' b h = absurd (ground (arith, h))

  -- If a sequence of two actions returns, both of them do.
  pub bind_returned :
      (s s' : S) (b : B)
      → (m >>= f) s ≡ (ok b, s')
      → (a : A) × (t : S) × (m s ≡ (ok a, t)) × (f a t ≡ (ok b, s'))
  bind_returned s s' b h = returned_of (m s) s' b h

-- The provider's checkpoint has no lease.
abbrev pub IsFree : String → Database → Type 0
IsFree id db =
    (c : ProviderCheckpoint) × (get checkpoint_key id db.checkpoints ≡ some c)
    × (c.lease_owner ≡ none)
    × (c.lease_until ≡ none)

release-IsFree :
    (id owner : String) (db db' : Database)
    → release_provider_lease id owner db ≡ (ok true, db')
    → IsFree id db'
unfolding release_provider_lease
release-IsFree id owner db db' h = elim (Option-cases (get checkpoint_key id db.checkpoints)) [
  | inl e ↦ absurd (ground (arith, rw e at h))
  | inr (c, e) ↦ elim (Bool-cases (is_owned c.lease_owner owner)) [
    | inr q ↦ absurd (ground (arith, rw (e, q) at h))
    | inl q ↦
        let free : ProviderCheckpoint = record c { lease_owner = none; lease_until = none } in
        let rows : put checkpoint_key free db.checkpoints ≡ db'.checkpoints =
          ap (λ r. r.1.checkpoints) (rw (e, q) at h) in
        let key : checkpoint_key c ≡ id = key-get checkpoint_key id c db.checkpoints e in
        (
          free,
          subst (λ cs. get checkpoint_key id cs ≡ some free) rows
              (subst
                (λ k. get checkpoint_key k (put checkpoint_key free db.checkpoints) ≡ some free) key
                (get-put_self checkpoint_key free db.checkpoints)),
          refl,
          refl,
        )
  ]
]

kept_release :
    (b : Bool) (result result' : ProcessingResult) (db db' : Database)
    → (raise_if (not b) runtime_error >>= λ _. pure result) db ≡ (ok result', db')
    → (b ≡ true) × (db ≡ db')
kept_release true result result' db db' h = (refl, ap (λ r. r.1) h)
kept_release false result result' db db' h = absurd (ground (arith, h))

pub process_lease-IsFree :
    (runner : Runner) (id : String) (raw : Raw) (i : ℕ) (result : ProcessingResult)
    (db db' : Database)
    → process_lease runner id raw i db ≡ (ok result, db')
    → IsFree id db'
unfolding process_lease
process_lease-IsFree runner id raw i result db db' h =
    let check : ProcessingResult → Bool → Action Database ProcessingResult =
      λ r b. raise_if (not b) runtime_error >>= λ _. pure r in
    let (r, t, e, g) =
      bind_returned
        (process runner.sha256 runner.dumps runner.registry (runner.contexts id i) id raw)
        (λ r. release_provider_lease id runner.owner >>= check r) db db' result h in
    let (b, u, x, k) =
      bind_returned (release_provider_lease id runner.owner) (check r) t db' result g in
    let (freed, same) = kept_release b r result u db' k in
    let released : release_provider_lease id runner.owner t ≡ (ok true, db') =
      x ∙ ap (λ v. (ok v, u)) freed ∙ ap (λ d. (ok true, d)) same in
    release-IsFree id runner.owner t db' released
