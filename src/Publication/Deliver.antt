-- ===== src/Publication/Deliver.antt =====
-- Who is notified by a publication: each matching recipient, once.
use hermes_event_server.Base.{
  ℕ, suc, ◌≤◌, String, ◌≡◌, refl, sym, ◌∙◌, ◌≢◌, ◌⊎◌, inl, inr, Bool, false, some, List, [], ◌∷◌,
  ◌++◌, arith, All, Bool-cases, select, any, All-append, All-select_of, All-map2,
}
use hermes_event_server.Base.Equality.{string_eq, nat_eq, pair_eq}
use hermes_event_server.Base.Table.{IsKeyed}
use hermes_event_server.Models.{
  Time, EventType, Subscription, pending, Delivery, DomainEvent, DeliveryMessage, model_dump,
  Database, subscription_key,
}
use mathlib.Core.List.{append-nil, append_assoc}
use hermes_event_server.MatchKeys.{recipient_matches}
use hermes_event_server.Publication.{
  Context, Messages, message_for, or_default, is_recipient, delivery_for, deliver, clashes,
  insert_deliveries,
}

abbrev pub target : Subscription → String × String
target s = (s.platform, s.openid)

abbrev pub delivery_target : Delivery → String × String
delivery_target d = (d.platform, d.openid)

-- Two recipients of one event are two users.
abbrev pub HasDistinctTargets : List Subscription → Type 0
HasDistinctTargets [] = Unit
HasDistinctTargets (s ∷ ss) = All (λ t. target t ≢ target s) ss × HasDistinctTargets ss

pub distinct_targets :
    (event_key : String) (ss : List Subscription)
    → IsKeyed subscription_key ss
    → All (λ s. s.event_key ≡ event_key) ss
    → HasDistinctTargets ss
distinct_targets k [] h a = tt
distinct_targets k (s ∷ ss) h a = (
  All-map2 ss (λ t differ same p. differ (λ i. (p i, (same ∙ sym a.0) i))) h.0 a.1,
  distinct_targets k ss h.1 a.1,
)

pub recipients_of :
    (event_key : String) (db : Database)
    → All
        (λ s. s.event_key ≡ event_key)
        (select (is_recipient event_key db.users db.permissions) db.subscriptions)
recipients_of event_key db =
    All-select_of _ (is_recipient event_key db.users db.permissions) db.subscriptions
      (λ s h. unfold is_recipient in ground arith)

module _ (c : Context) (event_type : EventType) (event : DomainEvent) (messages : Messages)
    (default : DeliveryMessage) (due : Time) where
  -- Whom the match keys let through.
  abbrev pub reached : Subscription → Bool
  reached s = recipient_matches c.repr event_type.match_key_field event.payload s.match_keys

  -- A delivery as it is made for a subscription: its message in the subscriber's locale, or the default.
  abbrev pub IsFor : ℕ → Subscription → Delivery → Type 0
  IsFor i s d =
      (delivery_target d ≡ target s)
      × (d.event_id ≡ event.event_id)
      × (d.event_key ≡ event.event_key)
      × (d.delivery_id ≡ c.uuids i)
      × (d.message ≡ model_dump (or_default (message_for s.locale messages) default))
      × (d.status ≡ pending)
      × (d.attempts ≡ 0)
      × (d.next_attempt_at ≡ due)

  -- One delivery for each subscription of a list, in order.
  abbrev pub AreFor : ℕ → List Subscription → List Delivery → Type 0
  AreFor i [] [] = Unit
  AreFor i [] (d ∷ ds) = ⊥
  AreFor i (s ∷ ss) [] = ⊥
  AreFor i (s ∷ ss) (d ∷ ds) = IsFor i s d × AreFor (suc i) ss ds

  pub deliver-AreFor :
      (i : ℕ) (ss : List Subscription)
      → AreFor i (select reached ss) (deliver c event_type event messages default due i ss)
  unfolding deliver delivery_for
  deliver-AreFor i [] = tt
  deliver-AreFor i (s ∷ ss) = elim (Bool-cases (reached s)) [
    | inl through ↦
        rw through ((refl, refl, refl, refl, refl, refl, refl, refl), deliver-AreFor (suc i) ss)
    | inr not_through ↦ rw not_through (deliver-AreFor i ss)
  ]

  -- A row that does not stand in the way of the deliveries from the i-th on, for some recipients.
  abbrev pub IsClear : ℕ → List Subscription → Delivery → Type 0
  IsClear i ss x =
      ((j : ℕ) → i ≤ j → x.delivery_id ≢ c.uuids j)
      × ((x.event_id ≢ event.event_id) ⊎ All (λ s. target s ≢ delivery_target x) ss)

  IsClear-tail :
      (i : ℕ) (s : Subscription) (ss : List Subscription) (x : Delivery)
      → IsClear i (s ∷ ss) x
      → IsClear (suc i) ss x
  IsClear-tail i s ss x (id, inl e) = ((λ j h. id j (omega arith)), inl e)
  IsClear-tail i s ss x (id, inr a) = ((λ j h. id j (omega arith)), inr a.1)

  IsClear-skip :
      (i : ℕ) (s : Subscription) (ss : List Subscription) (x : Delivery)
      → IsClear i (s ∷ ss) x
      → IsClear i ss x
  IsClear-skip i s ss x (id, inl e) = (id, inl e)
  IsClear-skip i s ss x (id, inr a) = (id, inr a.1)

  unclashing :
      (i : ℕ) (s : Subscription) (ss : List Subscription) (x : Delivery) (m : DeliveryMessage)
      → IsClear i (s ∷ ss) x
      → clashes (delivery_for c event m due i s) x ≡ false
  unfolding delivery_for
  unclashing i s ss x m (id, inl e) = ground (arith, id i (omega arith))
  unclashing i s ss x m (id, inr a) = ground (
    arith,
    id i (omega arith),
    λ (p : x.platform ≡ s.platform) (q : x.openid ≡ s.openid). a.0 (λ k. (sym p k, sym q k)),
  )

  none_clash :
      (i : ℕ) (s : Subscription) (ss : List Subscription) (m : DeliveryMessage)
      (table : List Delivery)
      → All (IsClear i (s ∷ ss)) table
      → any (clashes (delivery_for c event m due i s)) table ≡ false
  none_clash i s ss m [] h = refl
  none_clash i s ss m (x ∷ xs) h = rw (unclashing i s ss x m h.0) (none_clash i s ss m xs h.1)

  All-imply {ℓ κ} :
      {A : Type 0} {P : A → Type ℓ} {Q : A → Type κ} (xs : List A)
      → ((x : A) → P x → Q x)
      → All P xs
      → All Q xs
  All-imply [] f h = tt
  All-imply (x ∷ xs) f h = (f x h.0, All-imply xs f h.1)

  own-IsClear :
      ((i j : ℕ) → c.uuids i ≡ c.uuids j → i ≡ j)
      → (i : ℕ) (s : Subscription) (ss : List Subscription) (m : DeliveryMessage)
      → All (λ t. target t ≢ target s) ss
      → IsClear (suc i) ss (delivery_for c event m due i s)
  unfolding delivery_for
  own-IsClear fresh i s ss m a = ((λ j h e. ground (arith, fresh i j e)), inr a)

  insert-fresh :
      (d : Delivery) (ds table : List Delivery)
      → any (clashes d) table ≡ false
      → insert_deliveries ds (table ++ d ∷ []) ≡ some ((table ++ d ∷ []) ++ ds)
      → insert_deliveries (d ∷ ds) table ≡ some (table ++ d ∷ ds)
  unfolding insert_deliveries
  insert-fresh d ds table h e = rw (h, e, append_assoc table (d ∷ []) ds) refl

  pub insert-deliver :
      ((i j : ℕ) → c.uuids i ≡ c.uuids j → i ≡ j)
      → (i : ℕ) (ss : List Subscription) (table : List Delivery) → HasDistinctTargets ss
      → All (IsClear i ss) table
      → insert_deliveries (deliver c event_type event messages default due i ss) table
        ≡ some (table ++ deliver c event_type event messages default due i ss)
  unfolding deliver insert_deliveries
  insert-deliver fresh i [] table d h = rw (append-nil table) refl
  insert-deliver fresh i (s ∷ ss) table d h = elim (Bool-cases (reached s)) [
    | inr not_through ↦
        rw not_through
          (insert-deliver fresh i ss table d.1 (All-imply table (IsClear-skip i s ss) h))
    | inl through ↦
        let m = or_default (message_for s.locale messages) default in
        rw through (
          insert-fresh (delivery_for c event m due i s) _ table (none_clash i s ss m table h) (
            insert-deliver fresh (suc i) ss (table ++ delivery_for c event m due i s ∷ []) d.1 (
              All-append _ table _ (All-imply table (IsClear-tail i s ss) h)
                (own-IsClear fresh i s ss m d.0, tt))))
  ]
