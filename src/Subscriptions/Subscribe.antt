-- ===== src/Subscriptions/Subscribe.antt =====
-- What a subscription that is not refused has passed, and what it writes.
use hermes_event_server.Base.{
  String, ◌≡◌, refl, ◌∙◌, inl, inr, true, false, not, ◌&&◌, Option, none, some, List, [], ◌∷◌,
  arith, Option-cases,
}
use hermes_event_server.Base.Equality.{string_eq, nat_eq, pair_eq}
use hermes_event_server.Base.Table.{get, put, get-put_self, put-put, key-get}
use hermes_event_server.Base.Action.{Result-cases, ok}
use hermes_event_server.Models.{EventType, Subscription, Database, subscription_key}
use hermes_event_server.MatchKeys.{follows_all}
use hermes_event_server.Users.{permission_snapshot}
use hermes_event_server.Subscriptions.{
  find_event, resolve_event, require_command, may_subscribe, requested_keys, same_keys,
  save_subscription, Subscribed, subscribe, subscribe_row,
}

same_keys_refl : (ks : List String) → same_keys ks ks ≡ true
same_keys_refl [] = refl
same_keys_refl (k ∷ ks) = ground (arith, same_keys_refl ks)

module _ (platform openid event_key : String) (match_keys : Option (List String)) where
  -- The user is active with command permission; the event is available; the row has the normalized
  -- match keys, which are among the event's options, and is saved under its key.
  pub record IsSubscribed (db db' : Database) (r : Subscribed) : Type 0 where
    pub event : EventType
    pub found : find_event event_key db ≡ some event
    pub permitted : may_subscribe (permission_snapshot platform openid db) ≡ true
    pub normalized : requested_keys event match_keys ≡ ok r.item.match_keys
    pub required : event.match_keys_required && follows_all r.item.match_keys ≡ false
    pub key : subscription_key r.item ≡ ((platform, openid), event.event_key)
    pub before :
        get subscription_key ((platform, openid), event.event_key) db.subscriptions ≡ none
        → r.created ≡ true
    pub again :
        (s : Subscription)
        → get subscription_key ((platform, openid), event.event_key) db.subscriptions ≡ some s
        → (r.created ≡ false)
          × (r.item.locale ≡ s.locale)
          × (r.updated ≡ not (same_keys s.match_keys r.item.match_keys))
    pub saved : db' ≡ save_subscription r.item db

  resolved :
      (r : Subscribed) (db db' : Database)
      → subscribe platform openid event_key match_keys db ≡ (ok r, db')
      → (event : EventType) × (ks : List String) × (find_event event_key db ≡ some event)
        × (may_subscribe (permission_snapshot platform openid db) ≡ true)
        × (requested_keys event match_keys ≡ ok ks)
        × (event.match_keys_required && follows_all ks ≡ false)
        × (subscribe_row
              (get subscription_key ((platform, openid), event.event_key) db.subscriptions)
              platform
              openid
              event.event_key
              ks
              db
            ≡ (ok r, db'))
  unfolding subscribe require_command resolve_event
  resolved r db db' h = elim (Option-cases (find_event event_key db)) [
    | inl e ↦ absurd (ground arith)
    | inr (event, e) ↦ elim (Result-cases (requested_keys event match_keys)) [
      | inr (x, f) ↦ absurd (ground arith)
      | inl (ks, f) ↦ (event, ks, e, ground arith, f, ground arith, ground arith)
    ]
  ]

  -- A subscription that is not refused comes from an active user with command permission, names an
  -- available event and allowed match keys, and saves the row with the normalized keys under the
  -- event's own key: a new one, or the old one with its locale kept.
  pub subscribe-IsSubscribed :
      (r : Subscribed) (db db' : Database)
      → subscribe platform openid event_key match_keys db ≡ (ok r, db')
      → IsSubscribed db db' r
  subscribe-IsSubscribed r db db' h =
      let (event, ks, e, permitted, f, required, w) = resolved r db db' h in
      elim (Option-cases
        (get subscription_key ((platform, openid), event.event_key) db.subscriptions)) [
          | inl none_yet ↦ record {
            event = event;
            found = e;
            permitted = permitted;
            normalized = ground (arith, f, w, none_yet);
            required = ground (arith, required, w, none_yet);
            key = ground (arith, w, none_yet);
            before = ground (arith, w, none_yet);
            again = ground (arith, w, none_yet);
            saved = ground (arith, w, none_yet);
          }
          | inr (s, old) ↦ record {
            event = event;
            found = e;
            permitted = permitted;
            normalized = ground (arith, f, w, old);
            required = ground (arith, required, w, old);
            key = ground (
              arith,
              w,
              old,
              key-get subscription_key ((platform, openid), event.event_key) s db.subscriptions old,
            );
            before = ground (arith, w, old);
            again = ground (arith, w, old);
            saved = ground (arith, w, old);
          }
        ]

  put_again :
      (event : EventType) (item : Subscription) (ks : List String) (db : Database)
      → ks ≡ item.match_keys
      → subscription_key item ≡ ((platform, openid), event.event_key)
      → subscribe_row
          (get subscription_key
            ((platform, openid), event.event_key)
            (put subscription_key item db.subscriptions))
          platform
          openid
          event.event_key
          ks
          (save_subscription item db)
        ≡ (ok (record { item = item; created = false; updated = false }), save_subscription item db)
  put_again event item ks db same key =
      rw
        (
          ← key,
          get-put_self subscription_key item db.subscriptions,
          same,
          put-put subscription_key item db.subscriptions,
          same_keys_refl item.match_keys,
        )
        refl

  subscribe-checked :
      (event : EventType) (ks : List String) (db : Database)
      → find_event event_key db ≡ some event
      → may_subscribe (permission_snapshot platform openid db) ≡ true
      → requested_keys event match_keys ≡ ok ks
      → event.match_keys_required && follows_all ks ≡ false
      → subscribe platform openid event_key match_keys db
        ≡ subscribe_row
            (get subscription_key ((platform, openid), event.event_key) db.subscriptions)
            platform
            openid
            event.event_key
            ks
            db
  unfolding subscribe require_command resolve_event
  subscribe-checked event ks db e permitted f required = ground arith

  -- Nothing that is checked depends on the subscriptions.
  same_event_found :
      (item : Subscription) (db : Database)
      → find_event event_key (save_subscription item db) ≡ find_event event_key db
  unfolding find_event
  same_event_found item db = refl

  same_snapshot :
      (item : Subscription) (db : Database)
      → permission_snapshot platform openid (save_subscription item db)
        ≡ permission_snapshot platform openid db
  unfolding permission_snapshot
  same_snapshot item db = refl

  -- Subscribing once more in the same way returns the same row as neither created nor updated, and
  -- changes nothing.
  pub subscribe_again :
      (r : Subscribed) (db db' : Database)
      → subscribe platform openid event_key match_keys db ≡ (ok r, db')
      → subscribe platform openid event_key match_keys db'
        ≡ (ok (record { item = r.item; created = false; updated = false }), db')
  subscribe_again r db db' h =
      let s = subscribe-IsSubscribed r db db' h in
      rw s.saved (
        subscribe-checked s.event r.item.match_keys (save_subscription r.item db)
          (same_event_found r.item db ∙ s.found) (rw (same_snapshot r.item db) s.permitted)
          s.normalized s.required
        ∙ put_again s.event r.item r.item.match_keys db refl s.key)
