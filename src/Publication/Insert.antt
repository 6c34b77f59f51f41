-- ===== src/Publication/Insert.antt =====
-- What a publication that is not a duplicate writes.
use hermes_event_server.Base.{
  ℕ, ◌≡◌, refl, ◌∙◌, true, false, Option, none, some, List, [], ◌∷◌, ◌++◌, arith, All, get_or,
  select, length,
}
use hermes_event_server.Base.Equality.{string_eq, nat_eq, pair_eq}
use hermes_event_server.Base.Table.{IsKeyed, select-IsKeyed}
use hermes_event_server.Base.Action.{ok}
use hermes_event_server.Models.{
  Time, EventType, Delivery, DomainEvent, DeliveryMessage, Database, subscription_key,
}
use hermes_event_server.Publication.{
  Context, Messages, is_recipient, recipients, publish, publish_checked, insert_occurrence, deliver,
  insert_deliveries, notify, occurrence_of, occurrence_taken, find_occurrence,
}
use hermes_event_server.Publication.Deliver.{
  IsClear, AreFor, reached, insert-deliver, deliver-AreFor, distinct_targets, recipients_of,
}
use hermes_event_server.Publication.Dedupe.{IsChecked}

module _ (c : Context) (event : DomainEvent) (messages : Messages) (due : Option Time) where
  publish-checked :
      (db : Database) (k : IsChecked c event messages due db)
      → publish c event messages due db
        ≡ publish_checked c k.event_type event messages k.default due db
  unfolding publish
  publish-checked db k = ground (arith, k.known, k.enabled, k.version, k.payload, k.has_default)

  -- The deliveries that a publication makes.
  abbrev pub deliveries_made : EventType → DeliveryMessage → Database → List Delivery
  deliveries_made event_type default db =
      deliver c event_type event messages default (get_or due c.now) 0 (recipients event db)

  insert_made :
      (event_type : EventType) (default : DeliveryMessage) (db : Database)
      → ((i j : ℕ) → c.uuids i ≡ c.uuids j → i ≡ j)
      → IsKeyed subscription_key db.subscriptions
      → All
          (IsClear c event_type event messages default (get_or due c.now) 0 (recipients event db))
          db.deliveries
      → insert_deliveries (deliveries_made event_type default db) db.deliveries
        ≡ some (db.deliveries ++ deliveries_made event_type default db)
  insert_made event_type default db fresh keyed clear =
      insert-deliver c event_type event messages default (get_or due c.now) fresh 0
        (recipients event db) db.deliveries
        (distinct_targets event.event_key (recipients event db)
          (select-IsKeyed subscription_key (is_recipient event.event_key db.users db.permissions)
            db.subscriptions keyed)
          (recipients_of event.event_key db))
        clear

  notify-made :
      (event_type : EventType) (default : DeliveryMessage) (db : Database) (table : List Delivery)
      → insert_deliveries (deliveries_made event_type default db) db.deliveries ≡ some table
      → notify c event_type event messages default due db ≡ (
        ok (record {
          event_id = event.event_id;
          created = true;
          deliveries_created = length (deliveries_made event_type default db);
        }),
        record db { deliveries = table },
      )
  unfolding notify
  notify-made event_type default db table h = rw (notify, h) refl

  insert-free :
      (event_type : EventType) (default : DeliveryMessage) (db : Database)
      → occurrence_taken event (c.others ++ db.occurrences) ≡ false
      → insert_occurrence c event_type event messages default due db
        ≡ notify c event_type event messages default due
            (record db { occurrences = (c.others ++ db.occurrences) ++ occurrence_of event ∷ [] })
  unfolding insert_occurrence
  insert-free event_type default db h = rw h refl

  checked-insert :
      (event_type : EventType) (default : DeliveryMessage) (db : Database)
      → find_occurrence event.event_key event.dedupe_key db.occurrences ≡ none
      → publish_checked c event_type event messages default due db
        ≡ insert_occurrence c event_type event messages default due db
  unfolding publish_checked
  checked-insert event_type default db h = rw h refl

  pub publish_delivers :
      (db : Database) (k : IsChecked c event messages due db)
      → find_occurrence event.event_key event.dedupe_key db.occurrences ≡ none
      → occurrence_taken event (c.others ++ db.occurrences) ≡ false
      → ((i j : ℕ) → c.uuids i ≡ c.uuids j → i ≡ j)
      → IsKeyed subscription_key db.subscriptions
      → All
          (IsClear c k.event_type event messages k.default
            (get_or due c.now)
            0
            (recipients event db))
          db.deliveries
      → let made = deliveries_made k.event_type k.default db in
        (publish c event messages due db ≡ (
          ok (record {
            event_id = event.event_id;
            created = true;
            deliveries_created = length made;
          }),
          record db {
            occurrences = (c.others ++ db.occurrences) ++ occurrence_of event ∷ [];
            deliveries = db.deliveries ++ made;
          },
        ))
        × AreFor c k.event_type event messages k.default
            (get_or due c.now)
            0
            (select
              (reached c k.event_type event messages k.default (get_or due c.now))
              (recipients event db))
            made
  publish_delivers db k unstored free fresh keyed clear = (
    publish-checked db k
        ∙ checked-insert k.event_type k.default db unstored
        ∙ insert-free k.event_type k.default db free
        ∙ notify-made k.event_type k.default
            (record db { occurrences = (c.others ++ db.occurrences) ++ occurrence_of event ∷ [] }) _
            (insert_made k.event_type k.default db fresh keyed clear),
    deliver-AreFor c k.event_type event messages k.default (get_or due c.now) 0
        (recipients event db),
  )
