-- ===== src/Outbox/Rows.antt =====
-- What one claim, acknowledgement or failure does to the rows of the table.
use hermes_event_server.Base.{
  ℕ, suc, ◌≤◌, String, ◌≡◌, refl, sym, ap, subst, ◌∙◌, ◌≢◌, Bool, true, false, some, List, [], ◌∷◌,
  arith, All, length, length-take-le, All-take, All-select, All-select_of, All-sort_by, All-map2,
}
use hermes_event_server.Base.Equality.{string_eq, nat_eq, pair_eq}
use hermes_event_server.Base.Table.{
  get, put, get-put_self, get-put_ne, IsKeyed, Found, put-IsKeyed, select-IsKeyed, take-IsKeyed,
  sort_by-IsKeyed, rows-Found, All-put,
}
use hermes_event_server.Base.Action.{ok, ◌>>=◌}
use hermes_event_server.Models.{Time, Delivery, delivery_key}
use hermes_event_server.Outbox.{
  ClaimRequest, ClaimedDelivery, matches_claim, comes_first, claim_statement, lease_row, lease_rows,
  claimed_item,
}

module _ (locked : String → Bool) (platform : String) (limit now : ℕ) (table : List Delivery) where
  pub claim_statement-IsKeyed :
      IsKeyed delivery_key table
      → IsKeyed delivery_key (claim_statement locked platform limit now table)
  unfolding claim_statement
  claim_statement-IsKeyed h =
      take-IsKeyed delivery_key limit _
        (sort_by-IsKeyed delivery_key comes_first _ (select-IsKeyed delivery_key _ table h))

  -- Every row of the table that a predicate holds of keeps it in the selection.
  pub claim_statement-All {ℓ} :
      (P : Delivery → Type ℓ)
      → All P table
      → All P (claim_statement locked platform limit now table)
  unfolding claim_statement
  claim_statement-All P h =
      All-take P limit _ (All-sort_by P comes_first _ (All-select P _ table h))

  pub claim_statement_matches :
      All
        (λ d. matches_claim locked platform now d ≡ true)
        (claim_statement locked platform limit now table)
  unfolding claim_statement
  claim_statement_matches =
      All-take _ limit _ (All-sort_by _ comes_first _ (All-select_of _ _ table (λ d h. h)))

  pub length-claim_statement : length (claim_statement locked platform limit now table) ≤ limit
  unfolding claim_statement
  length-claim_statement = length-take-le limit _

module _ (digest : String → String) (r : ClaimRequest) (now : Time) (tokens : ℕ → String) where
  -- The loop leaves a row alone whose key is not among the selected ones.
  pub get-lease_rows_ne :
      (id : String) (i : ℕ) (rows table : List Delivery)
      → All (λ d. d.delivery_id ≢ id) rows
      → get delivery_key id (lease_rows digest r now tokens i rows table).1
        ≡ get delivery_key id table
  unfolding lease_rows lease_row
  get-lease_rows_ne id i [] table h = refl
  get-lease_rows_ne id i (row ∷ rows) table h = ground (
    arith,
    get-lease_rows_ne id (suc i) rows
        (put delivery_key (lease_row digest r now (tokens i) row) table) h.1,
    get-put_ne delivery_key id (lease_row digest r now (tokens i) row) table,
  )

  -- The item and the row of each turn: the item is what the caller gets, the row is in the table.
  abbrev pub Leases : List Delivery → ℕ → List Delivery → List ClaimedDelivery → Type 0
  Leases final i [] [] = Unit
  Leases final i [] (c ∷ cs) = ⊥
  Leases final i (d ∷ ds) [] = ⊥
  Leases final i (d ∷ ds) (c ∷ cs) =
      (c ≡ claimed_item (tokens i) (lease_row digest r now (tokens i) d))
      × (get delivery_key d.delivery_id final ≡ some (lease_row digest r now (tokens i) d))
      × Leases final (suc i) ds cs

  -- One turn of the loop.
  module _ (i : ℕ) (row : Delivery) (rows table : List Delivery) where
    abbrev held : Delivery
    held = lease_row digest r now (tokens i) row

    lease_rows-state :
        (lease_rows digest r now tokens i (row ∷ rows) table).1
        ≡ (lease_rows digest r now tokens (suc i) rows (put delivery_key held table)).1
    unfolding lease_rows
    lease_rows-state = ground arith

    lease_rows-result :
        (items : List ClaimedDelivery)
        → (lease_rows digest r now tokens (suc i) rows (put delivery_key held table)).0 ≡ ok items
        → (lease_rows digest r now tokens i (row ∷ rows) table).0
          ≡ ok (claimed_item (tokens i) held ∷ items)
    unfolding lease_rows
    lease_rows-result items e = rw (e, ◌>>=◌)

  -- The loop ends with one item for each selected row.
  pub lease_rows-Leases :
      (i : ℕ) (rows table : List Delivery)
      → IsKeyed delivery_key rows
      → (items : List ClaimedDelivery) × ((lease_rows digest r now tokens i rows table).0
          ≡ ok items)
        × (length items ≡ length rows)
        × Leases (lease_rows digest r now tokens i rows table).1 i rows items
  unfolding lease_rows lease_row
  lease_rows-Leases i [] table h = ([], refl, refl, tt)
  lease_rows-Leases i (row ∷ rows) table h =
      let table' = put delivery_key (held i row rows table) table in
      let (items, e, n, l) = lease_rows-Leases (suc i) rows table' h.1 in
      let own = get-lease_rows_ne row.delivery_id (suc i) rows table' h.0 in
      (
        claimed_item (tokens i) (held i row rows table) ∷ items,
        lease_rows-result i row rows table items e,
        ap suc n,
        subst
            (λ f. Leases f i (row ∷ rows) (claimed_item (tokens i) (held i row rows table) ∷ items))
            (sym (lease_rows-state i row rows table))
            (refl, own ∙ get-put_self delivery_key (held i row rows table) table, l),
      )

  -- The loop keeps the key unique, and what all rows and each leased one satisfy.
  pub lease_rows-All :
      (P Q : Delivery → Type 0)
      → ((token : String) (d : Delivery) → Q d → P (lease_row digest r now token d))
      → (i : ℕ) (rows table : List Delivery) → All Q rows
      → All P table
      → IsKeyed delivery_key table
      → All P (lease_rows digest r now tokens i rows table).1
        × IsKeyed delivery_key (lease_rows digest r now tokens i rows table).1
  unfolding lease_rows
  lease_rows-All P Q f i [] table hr h k = (h, k)
  lease_rows-All P Q f i (row ∷ rows) table hr h k =
      let next = lease_row digest r now (tokens i) row in
      ground (
        arith,
        lease_rows-All P Q f (suc i) rows (put delivery_key next table) hr.1
            (All-put delivery_key P next table (f (tokens i) row hr.0) h)
            (put-IsKeyed delivery_key next table k),
      )

-- A row that the query does not match is selected by no claim.
pub claim_statement_spares :
    (locked : String → Bool) (platform : String) (limit now : ℕ) (table : List Delivery)
    (id : String) (d : Delivery)
    → IsKeyed delivery_key table
    → get delivery_key id table ≡ some d
    → matches_claim locked platform now d ≡ false
    → All (λ x. x.delivery_id ≢ id) (claim_statement locked platform limit now table)
claim_statement_spares locked platform limit now table id d k e no_match =
    All-map2 (claim_statement locked platform limit now table)
      (λ x found hit same. absurd (cc (hit, no_match, found, e, same)))
      (claim_statement-All locked platform limit now table (Found delivery_key table)
        (rows-Found delivery_key table k))
      (claim_statement_matches locked platform limit now table)
