-- ===== src/Subscriptions/Effect.antt =====
-- Who a subscription that is not refused comes from, which match keys it has, and what it stores.
use hermes_event_server.Base.{
  ◌≤◌, String, ◌≡◌, refl, sym, ap, subst, ◌∙◌, ◌⊎◌, inl, inr, Bool, true, false, not, ◌&&◌, Option,
  none, some, List, [], ◌∷◌, arith, All, get_or, if◌then◌else◌, Bool-cases, Option-cases, any,
  length,
}
use hermes_event_server.Base.Equality.{◌==◌, contains, string_eq, nat_eq, pair_eq}
use hermes_event_server.Base.Table.{get, put, get-put}
use hermes_event_server.Base.Action.{Result-cases, ok}
use hermes_event_server.Json.{Json, Fields, null, bool, int, float, str, list, dict, get_field}
use hermes_event_server.Models.{
  active, User, EventType, EventAlias, Subscription, Database, user_key, event_type_key, alias_key,
  subscription_key,
}
use hermes_event_server.MatchKeys.{
  option_key, add_key, allowed_match_keys, ensure_match_keys_allowed, normalize_match_keys,
  follows_all,
}
use hermes_event_server.MatchKeys.Normal.{contains-add_key, normalize_match_keys-IsNormal}
use hermes_event_server.Users.{has_permission, permission_snapshot}
use hermes_event_server.Subscriptions.{
  find_event, may_subscribe, requested_keys, allowed_keys, Subscribed, subscribe,
}
use hermes_event_server.Subscriptions.Subscribe.{subscribe-IsSubscribed}

-- An active user with command permission.
abbrev pub MayCommand : String → String → Database → Type 0
MayCommand platform openid db =
    (u : User) × (get user_key (platform, openid) db.users ≡ some u)
    × (u.account_status ≡ active)
    × (has_permission db.permissions (platform, openid) "command" ≡ true)

-- The event type under a key, or under the key that an alias stands for.
abbrev pub IsNamedBy : String → Database → EventType → Type 0
IsNamedBy key db event =
    (get event_type_key key db.event_types ≡ some event)
    ⊎ ((a : EventAlias) × (get alias_key key db.aliases ≡ some a)
        × (get event_type_key a.event_key db.event_types ≡ some event))

-- One of the options has the key.
abbrev pub Offers : String → List Json → Type 0
Offers k [] = true ≡ false
Offers k (o ∷ os) =
    ((fs : Fields) × (o ≡ dict fs) × (get_field "key" fs ≡ some (str k))) ⊎ Offers k os

abbrev pub HasEnough : Bool → List String → Type 0
HasEnough true ks = 1 ≤ length ks
HasEnough false ks = Unit

-- A subscription that was there keeps its locale.
abbrev pub Renews : Option Subscription → Subscribed → Type 0
Renews none r = r.created ≡ true
Renews (some s) r = (r.created ≡ false) × (r.item.locale ≡ s.locale)

module _ (platform openid event_key : String) (match_keys : Option (List String)) where
  pub record IsStored (db db' : Database) (r : Subscribed) : Type 0 where
    pub permitted : MayCommand platform openid db
    pub event : EventType
    pub named : IsNamedBy event_key db event
    pub enabled : event.enabled ≡ true
    pub subscribable : event.subscribable ≡ true
    pub same : (k : String) → contains r.item.match_keys k ≡ contains (get_or match_keys []) k
    pub offered : All (λ k. Offers k event.match_key_options) r.item.match_keys
    pub enough : HasEnough event.match_keys_required r.item.match_keys
    pub renews :
        Renews (get subscription_key ((platform, openid), event.event_key) db.subscriptions) r
    pub stored :
        (key : (String × String) × String)
        → get subscription_key key db'.subscriptions ≡ (
            if ((platform, openid), event.event_key) == key
            then some r.item
            else get subscription_key key db.subscriptions)

may_subscribe-MayCommand :
    (platform openid : String) (db : Database)
    → may_subscribe (permission_snapshot platform openid db) ≡ true
    → MayCommand platform openid db
unfolding permission_snapshot
may_subscribe-MayCommand platform openid db h =
    elim (Option-cases (get user_key (platform, openid) db.users)) [
      | inl e ↦ absurd (ground (arith, rw e at h))
      | inr (u, e) ↦ (u, e, ground (arith, rw e at h), ground (arith, rw e at h))
    ]

option_key-str :
    (o : Json) (k : String)
    → option_key o ≡ some k
    → (fs : Fields) × (o ≡ dict fs) × (get_field "key" fs ≡ some (str k))
option_key-str (dict fs) k h = elim (Option-cases (get_field "key" fs)) [
  | inl e ↦ absurd (ground (arith, rw (option_key, e) at h))
  | inr (str s, e) ↦ elim (Bool-cases (s == "")) [
    | inl q ↦ absurd (ground (arith, rw (option_key, e, q) at h))
    | inr q ↦
        let same : s ≡ k = ground (arith, rw (option_key, e, q) at h) in
        (fs, refl, e ∙ ap (λ x. some (str x)) same)
  ]
  | inr (null, e) ↦ absurd (ground (arith, rw (option_key, e) at h))
  | inr (bool b, e) ↦ absurd (ground (arith, rw (option_key, e) at h))
  | inr (int n, e) ↦ absurd (ground (arith, rw (option_key, e) at h))
  | inr (float m n, e) ↦ absurd (ground (arith, rw (option_key, e) at h))
  | inr (list xs, e) ↦ absurd (ground (arith, rw (option_key, e) at h))
  | inr (dict gs, e) ↦ absurd (ground (arith, rw (option_key, e) at h))
]
option_key-str _ k h = absurd (ground (arith, h))

allowed-Offers :
    (os : List Json) (k : String) → contains (allowed_match_keys os) k ≡ true → Offers k os
unfolding allowed_match_keys
allowed-Offers [] k h = sym h
allowed-Offers (o ∷ os) k h = elim (Option-cases (option_key o)) [
  | inl e ↦ inr (
      allowed-Offers os k (
        subst
          (λ o.
            contains
              (elim o [ none ↦ allowed_match_keys os | some j ↦ add_key j (allowed_match_keys os) ])
              k
            ≡ true)
          e h))
  | inr (j, e) ↦ elim (Bool-cases (j == k)) [
    | inl q ↦ let same : j ≡ k = ground (arith, q) in inl (option_key-str o k (e ∙ ap some same))
    | inr q ↦ inr (
        allowed-Offers os k (
          ground (
            arith,
            q,
            contains-add_key j (allowed_match_keys os) k,
            subst
                (λ o.
                  contains
                    (elim o [
                      | none ↦ allowed_match_keys os
                      | some i ↦ add_key i (allowed_match_keys os)
                    ])
                    k
                  ≡ true)
                e h,
          )))
  ]
]

keys_found :
    (ks : List String) (os : List Json)
    → any (λ v. not (contains (allowed_match_keys os) v)) ks ≡ false
    → All (λ k. Offers k os) ks
keys_found [] os h = tt
keys_found (k ∷ ks) os h =
    (allowed-Offers os k (ground (arith, h)), keys_found ks os (ground (arith, h)))

requested_keys-normal :
    (event : EventType) (match_keys : Option (List String)) (ks : List String)
    → requested_keys event match_keys ≡ ok ks
    → (normalize_match_keys match_keys ≡ ok ks)
      × (any (λ v. not (contains (allowed_match_keys event.match_key_options) v)) ks ≡ false)
unfolding requested_keys ensure_match_keys_allowed
requested_keys-normal event match_keys ks h =
    elim (Result-cases (normalize_match_keys match_keys)) [
      | inr (x, e) ↦ absurd (ground (arith, rw e at h))
      | inl (js, e) ↦
          elim (Bool-cases
            (any (λ v. not (contains (allowed_match_keys event.match_key_options) v)) js)) [
              | inl q ↦ absurd (ground (arith, rw (allowed_keys, e, q) at h))
              | inr q ↦
                  let same : js ≡ ks = ground (arith, rw (allowed_keys, e, q) at h) in
                  (
                    e ∙ ap ok same,
                    subst
                        (λ xs.
                          any (λ v. not (contains (allowed_match_keys event.match_key_options) v))
                            xs
                          ≡ false)
                        same q,
                  )
            ]
    ]

normal_same :
    (match_keys : Option (List String)) (ks : List String)
    → normalize_match_keys match_keys ≡ ok ks
    → (k : String) → contains ks k ≡ contains (get_or match_keys []) k
unfolding normalize_match_keys
normal_same none ks h k =
    let same : [] ≡ ks = ground (arith, h) in ap (λ xs. contains xs k) (sym same)
normal_same (some values) ks h k = (normalize_match_keys-IsNormal values ks h).same k

enough_keys :
    (required : Bool) (ks : List String)
    → required && follows_all ks ≡ false
    → HasEnough required ks
enough_keys false ks h = tt
enough_keys true [] h = absurd (ground (arith, h))
enough_keys true (k ∷ ks) h = omega arith

event_named :
    (event_key : String) (db : Database) (event : EventType)
    → find_event event_key db ≡ some event
    → IsNamedBy event_key db event × (event.enabled ≡ true) × (event.subscribable ≡ true)
unfolding find_event
event_named event_key db event h =
    elim (Option-cases (get event_type_key event_key db.event_types)) [
      | inr (t, e) ↦ elim (Bool-cases (t.enabled && t.subscribable)) [
        | inr q ↦ absurd (ground (arith, rw (e, q) at h))
        | inl q ↦
            let same : t ≡ event = ground (arith, rw (e, q) at h) in
            subst (λ x. IsNamedBy event_key db x × (x.enabled ≡ true) × (x.subscribable ≡ true))
              same (inl e, ground (arith, q), ground (arith, q))
      ]
      | inl n ↦ elim (Option-cases (get alias_key event_key db.aliases)) [
        | inl m ↦ absurd (ground (arith, rw (n, m) at h))
        | inr (a, m) ↦ elim (Option-cases (get event_type_key a.event_key db.event_types)) [
          | inl e ↦ absurd (ground (arith, rw (n, m, e) at h))
          | inr (t, e) ↦ elim (Bool-cases (t.enabled && t.subscribable)) [
            | inr q ↦ absurd (ground (arith, rw (n, m, e, q) at h))
            | inl q ↦
                let same : t ≡ event = ground (arith, rw (n, m, e, q) at h) in
                subst (λ x. IsNamedBy event_key db x × (x.enabled ≡ true) × (x.subscribable ≡ true))
                  same (inr (a, m, e), ground (arith, q), ground (arith, q))
          ]
        ]
      ]
    ]

-- A subscription that is not refused comes from an active user with command permission and names, by
-- its key or an alias, an event type that is enabled and can be subscribed to. The row that it returns
-- has exactly the match keys that were asked for, each one the key of an option of the event, and at
-- least one if the event requires them. It is stored under the user and the event's own key, every
-- other subscription is as before, and it is new exactly if there was none, or else keeps its locale.
pub subscribe-IsStored :
    (platform openid event_key : String) (match_keys : Option (List String)) (r : Subscribed)
    (db db' : Database)
    → subscribe platform openid event_key match_keys db ≡ (ok r, db')
    → IsStored platform openid event_key match_keys db db' r
subscribe-IsStored platform openid event_key match_keys r db db' h =
    let s = subscribe-IsSubscribed platform openid event_key match_keys r db db' h in
    let (normal, allowed) =
      requested_keys-normal s.event match_keys r.item.match_keys s.normalized in
    let (named, enabled, subscribable) = event_named event_key db s.event s.found in
    let key : (String × String) × String = ((platform, openid), s.event.event_key) in
    let rows : db'.subscriptions ≡ put subscription_key r.item db.subscriptions =
      ap (λ d. d.subscriptions) s.saved in
    record {
      permitted = may_subscribe-MayCommand platform openid db s.permitted;
      event = s.event;
      named = named;
      enabled = enabled;
      subscribable = subscribable;
      same = normal_same match_keys r.item.match_keys normal;
      offered = keys_found r.item.match_keys s.event.match_key_options allowed;
      enough = enough_keys s.event.match_keys_required r.item.match_keys s.required;
      renews = elim (Option-cases (get subscription_key key db.subscriptions)) [
        | inl e ↦ subst (λ o. Renews o r) (sym e) (s.before e)
        | inr (old, e) ↦ subst (λ o. Renews o r) (sym e) ((s.again old e).0, (s.again old e).1)
      ];
      stored = λ k.
          subst
            (λ j.
              get subscription_key k db'.subscriptions
              ≡ (if j == k then some r.item else get subscription_key k db.subscriptions))
            s.key
            (ap (get subscription_key k) rows ∙ get-put subscription_key k r.item db.subscriptions);
    }
