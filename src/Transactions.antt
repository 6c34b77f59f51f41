-- ===== src/Transactions.antt =====
-- src/eventserver/db/transactions.py: a transaction that MySQL ends as a deadlock or a lock timeout is
-- run again. An attempt is the operation in its own session: it returns and is committed, or raises
-- and is rolled back. `attempts i` is the i-th attempt on the database that it meets.
pub mod Retry
use hermes_event_server.Base.{
  ℕ, zero, suc, ◌+◌, ◌-◌, ◌*◌, ◌/◌, ◌%◌, ◌^◌, ◌≤◌, ◌<◌, min, max, String, ◌≡◌, refl, sym, ap, subst,
  ◌∙◌, ◌≢◌, ◌↔◌, ◌⊎◌, inl, inr, Bool, true, false, not, ◌&&◌, ◌||◌, Option, none, some, List, [],
  ◌∷◌, ◌++◌, map, arith, All, is_some, get_or, ltb, leb, nat_beq, if◌then◌else◌, ltb→lt, leb→le,
  Bool-cases, Option-cases, take, select, any, insert_by, sort_by, length, length-append,
  length-map, length-take-le, All-take, All-append, All-select, All-select_of, All-insert_by,
  All-sort_by, All-map2,
}
use hermes_event_server.Base.Equality.{
  Eq, ◌==◌, contains, string_eq, nat_eq, pair_eq, string_discrete, distinct,
}
use hermes_event_server.Base.Table.{
  get, put, delete, get-put, get-put_self, get-put_ne, get-put_at, put-put, get-delete, get_absent,
  key-get, IsKeyed, Found, put-IsKeyed, delete-IsKeyed, select-IsKeyed, take-IsKeyed,
  sort_by-IsKeyed, rows-Found, All-put, All-get, All-delete,
}
use hermes_event_server.Base.Action.{
  Error, lease_conflict_error, authorization_error, last_admin_error, value_error,
  event_not_found_error, match_key_error, invalid_match_key_error, publication_error,
  pairing_code_error, first_admin_bootstrap_error, lookup_error, key_error, runtime_error,
  integrity_error, Result, Result-cases, ok, err, Action, pure, raise, lift, gets, or_raise, modify,
  raise_if, ◌>>=◌, ◌>>◌,
}
use hermes_event_server.Json.{
  Json, Items, Fields, null, bool, int, float, str, list, dict, nil, cons, end, field, get_field,
  has_field, item_list, count_items, keys, str_items, optional_str, number_lt, number_eq, as_number,
}
use hermes_event_server.Models.{
  Time, seconds, Role, user, admin, AccountStatus, active, blocked, User, UserPermission, EventType,
  EventPublisher, EventAlias, ProviderInstance, ProviderCheckpoint, ObservationRecord,
  EventOccurrence, Subscription, DeliveryStatus, pending, leased, retry, sent, dead, Delivery,
  PairingCode, AuditLog, Observation, DomainEvent, DeliveryMessage, model_dump, Database,
  empty_database, user_key, permission_key, event_type_key, alias_key, instance_key, checkpoint_key,
  subscription_key, delivery_key, pairing_key, publisher_key,
}

-- How an attempt ends: an OperationalError with MySQL's code, if it has one, or another exception.
pub data Attempt (S A : Type 0) : Type 0 where
  committed : A → S → Attempt S A
  operational_error : Option ℕ → Attempt S A
  other_error : Error → Attempt S A

-- What the caller gets, with the delays that were slept.
pub data Retried (A : Type 0) : Type 0 where
  returned : A → Retried A
  raised_operational : Option ℕ → Retried A
  raised_other : Error → Retried A

abbrev pub retriable : List ℕ
retriable = 1205 ∷ 1213 ∷ []

abbrev pub is_retriable : Option ℕ → Bool
is_retriable none = false
is_retriable (some code) = contains retriable code

module _ {S A : Type 0} where
  -- The attempts from number i on, of which `left` are left; the delays are multiples of
  -- `base_delay_seconds`.
  unfoldable pub attempt_from : (ℕ → S → Attempt S A) → ℕ → ℕ → S → Retried A × (S × List ℕ)
  attempt_from attempts zero i s = (raised_other value_error, (s, []))
  attempt_from attempts (suc left) i s =
      let rest = attempt_from attempts left (suc i) s in
      elim (attempts i s) [
        | committed a s' ↦ (returned a, (s', []))
        | other_error e ↦ (raised_other e, (s, []))
        | operational_error code ↦
            if not (is_retriable code) || nat_beq left 0
            then (raised_operational code, (s, []))
            else (rest.0, (rest.1.0, 2 ^ i ∷ rest.1.1))
      ]

  unfoldable pub run_with_deadlock_retry : (ℕ → S → Attempt S A) → ℕ → S → Retried A × (S × List ℕ)
  run_with_deadlock_retry attempts max_attempts s = attempt_from attempts max_attempts 0 s
