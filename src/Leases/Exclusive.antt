-- ===== src/Leases/Exclusive.antt =====
-- A claimed provider instance is claimed by nobody else while its lease runs.
use hermes_event_server.Base.{
  ◌+◌, ◌≤◌, String, ◌≡◌, refl, sym, ◌∙◌, ◌≢◌, inl, inr, Bool, true, false, some, List, [], ◌∷◌, map,
  arith, All, Option-cases, select, sort_by, length, length-map, length-take-le,
}
use hermes_event_server.Base.Equality.{string_eq, nat_eq, pair_eq, string_discrete}
use hermes_event_server.Base.Table.{get, get-put_ne, get-put_at, key-get}
use hermes_event_server.Base.Action.{ok}
use hermes_event_server.Models.{
  Time, seconds, ProviderInstance, ProviderCheckpoint, Database, checkpoint_key,
}
use hermes_event_server.Leases.{
  comes_first, ProviderLease, is_due, due_provider_statement, LeaseRequest, leased_checkpoint,
  or_new_checkpoint, lease_provider, provider_lease, lease_providers, claim_due_providers,
  release_provider_lease,
}

pub or_new_checkpoint-key :
    (id : String) (cs : List ProviderCheckpoint)
    → checkpoint_key (or_new_checkpoint (get checkpoint_key id cs) id) ≡ id
or_new_checkpoint-key id cs = elim (Option-cases (get checkpoint_key id cs)) [
  | inl e ↦ rw e refl
  | inr (c, e) ↦ rw e (key-get checkpoint_key id c cs e)
]

module _ (r : LeaseRequest) (now : Time) where
  -- The checkpoint of an instance has the lease of the claim.
  pub record IsTaken (checkpoints : List ProviderCheckpoint) (id : String) : Type 0 where
    pub checkpoint : ProviderCheckpoint
    pub found : get checkpoint_key id checkpoints ≡ some checkpoint
    pub owner : checkpoint.lease_owner ≡ some r.owner
    pub until : checkpoint.lease_until ≡ some (now + seconds r.lease_seconds)

  lease_provider-IsTaken :
      (p : ProviderInstance) (db : Database)
      → IsTaken (lease_provider r now p db).checkpoints p.provider_instance_id
  unfolding lease_provider
  lease_provider-IsTaken p db =
      let c =
        or_new_checkpoint (get checkpoint_key p.provider_instance_id db.checkpoints)
          p.provider_instance_id in
      record {
        checkpoint = leased_checkpoint r now c;
        found =
            get-put_at checkpoint_key p.provider_instance_id (leased_checkpoint r now c)
              db.checkpoints (or_new_checkpoint-key p.provider_instance_id db.checkpoints);
        owner = refl;
        until = refl;
      }

  lease_provider_keeps :
      (p : ProviderInstance) (id : String) (db : Database)
      → IsTaken db.checkpoints id
      → IsTaken (lease_provider r now p db).checkpoints id
  unfolding lease_provider
  lease_provider_keeps p id db t = elim (string_discrete p.provider_instance_id id) [
    | yes same ↦ rw (← same) (lease_provider-IsTaken p db)
    | no differ ↦ record {
      checkpoint = t.checkpoint;
      found =
          get-put_ne checkpoint_key id
            (leased_checkpoint r now (
              or_new_checkpoint (get checkpoint_key p.provider_instance_id db.checkpoints)
                p.provider_instance_id))
            db.checkpoints
            (λ q. differ (sym (or_new_checkpoint-key p.provider_instance_id db.checkpoints) ∙ q))
          ∙ t.found;
      owner = t.owner;
      until = t.until;
    }
  ]

  -- What the loop writes.
  abbrev all_leased : List ProviderInstance → Database → Database
  all_leased [] db = db
  all_leased (p ∷ ps) db = all_leased ps (lease_provider r now p db)

  lease_providers-all :
      (ps : List ProviderInstance) (db : Database)
      → lease_providers r now ps db ≡ (ok (map (provider_lease r now) ps), all_leased ps db)
  unfolding lease_providers
  lease_providers-all [] db = refl
  lease_providers-all (p ∷ ps) db =
      ground (arith, lease_providers-all ps (lease_provider r now p db))

  all_leased_keeps :
      (ps : List ProviderInstance) (id : String) (db : Database)
      → IsTaken db.checkpoints id
      → IsTaken (all_leased ps db).checkpoints id
  all_leased_keeps [] id db t = t
  all_leased_keeps (p ∷ ps) id db t =
      all_leased_keeps ps id (lease_provider r now p db) (lease_provider_keeps p id db t)

  all_leased-IsTaken :
      (ps : List ProviderInstance) (db : Database)
      → All
          (λ l. IsTaken (all_leased ps db).checkpoints l.provider_instance_id)
          (map (provider_lease r now) ps)
  all_leased-IsTaken [] db = tt
  all_leased-IsTaken (p ∷ ps) db = (
    all_leased_keeps ps p.provider_instance_id (lease_provider r now p db)
        (lease_provider-IsTaken p db),
    all_leased-IsTaken ps (lease_provider r now p db),
  )

  -- A taken instance is not due while the lease runs.
  taken_not_due :
      (locked : String → Bool) (checkpoints : List ProviderCheckpoint) (now' : Time)
      (p : ProviderInstance)
      → IsTaken checkpoints p.provider_instance_id
      → now' ≤ now + seconds r.lease_seconds
      → is_due locked checkpoints now' p ≡ false
  unfolding is_due
  taken_not_due locked checkpoints now' p t h = ground (arith, t.found, t.until)

  -- The instance of a lease is open to no claim up to its end, and another owner's release is
  -- refused and writes nothing; the owner's own release frees it.
  pub record IsExclusive (db : Database) (l : ProviderLease) : Type 0 where
    pub until : l.lease_until ≡ now + seconds r.lease_seconds
    pub not_due :
        (locked : String → Bool) (now' : Time) (p : ProviderInstance)
        → p.provider_instance_id ≡ l.provider_instance_id
        → now' ≤ l.lease_until
        → is_due locked db.checkpoints now' p ≡ false
    pub others :
        (owner : String)
        → owner ≢ r.owner
        → release_provider_lease l.provider_instance_id owner db ≡ (ok false, db)
    pub own : (release_provider_lease l.provider_instance_id r.owner db).0 ≡ ok true

  taken-IsExclusive :
      (db : Database) (l : ProviderLease)
      → l.lease_until ≡ now + seconds r.lease_seconds
      → IsTaken db.checkpoints l.provider_instance_id
      → IsExclusive db l
  unfolding release_provider_lease
  taken-IsExclusive db l u t = record {
    until = u;
    not_due =
        λ locked now' p same h. taken_not_due locked db.checkpoints now' p (rw same t) (rw (← u) h);
    others =
        λ owner differ. ground (arith, t.found, t.owner, λ (p : r.owner ≡ owner). differ (sym p));
    own = ground (arith, t.found, t.owner);
  }

  All-IsExclusive :
      (ps : List ProviderInstance) (db : Database)
      → All (λ l. IsTaken db.checkpoints l.provider_instance_id) (map (provider_lease r now) ps)
      → All (IsExclusive db) (map (provider_lease r now) ps)
  All-IsExclusive [] db h = tt
  All-IsExclusive (p ∷ ps) db h =
      (taken-IsExclusive db (provider_lease r now p) refl h.0, All-IsExclusive ps db h.1)

  -- A claim always returns, with one lease for each instance that the query selects, at most `limit`.
  -- On the database that it leaves, no claim up to the end of a lease selects the lease's instance,
  -- nobody but the owner can release it, and the owner can.
  pub claim_due_providers-IsExclusive :
      (locked : String → Bool) (db : Database)
      → (leases : List ProviderLease) × ((claim_due_providers locked r now db).0 ≡ ok leases)
        × (leases ≡ map (provider_lease r now) (due_provider_statement locked r.limit now db))
        × (length leases ≤ r.limit)
        × All (IsExclusive (claim_due_providers locked r now db).1) leases
  unfolding claim_due_providers
  claim_due_providers-IsExclusive locked db =
      let ps = due_provider_statement locked r.limit now db in
      (
        map (provider_lease r now) ps,
        rw (lease_providers-all ps db) refl,
        refl,
        rw (length-map (provider_lease r now) ps) (
            unfold due_provider_statement in
            length-take-le r.limit
              (sort_by comes_first (select (is_due locked db.checkpoints now) db.instances))),
        rw (lease_providers-all ps db)
            (All-IsExclusive ps (all_leased ps db) (all_leased-IsTaken ps db)),
      )
