-- ===== src/Base/Table.antt =====
-- A table of the database: its rows, with a primary key. `get` is `session.get`, `put` an insert
-- or the flush of a changed row, `delete` the removal of the row with a key.
use hermes_event_server.Base.{
  ◌≡◌, ◌≢◌, refl, Option, none, some, List, [], ◌∷◌, arith, All, if◌then◌else◌, select, take,
  sort_by, insert_by, All-select, All-take, All-sort_by, All-insert_by, sym, subst, Bool, true,
  false, ℕ, zero, suc,
}
use hermes_event_server.Base.Equality.{Eq, ◌==◌}

module _ {R K : Type 0} ⦃e : Eq K⦄ (key : R → K) where
  unfoldable pub get : K → List R → Option R
  get k [] = none
  get k (r ∷ rs) = if key r == k then some r else get k rs

  unfoldable pub put : R → List R → List R
  put r [] = r ∷ []
  put r (s ∷ rs) = if key s == key r then r ∷ rs else s ∷ put r rs

  unfoldable pub delete : K → List R → List R
  delete k [] = []
  delete k (r ∷ rs) = let rest = delete k rs in if key r == k then rest else r ∷ rest

  -- The primary key is unique.
  abbrev pub IsKeyed : List R → Type 0
  IsKeyed [] = Unit
  IsKeyed (r ∷ rs) = All (λ s. key s ≢ key r) rs × IsKeyed rs

  pub get-put :
      (k : K) (r : R) (rs : List R) → get k (put r rs) ≡ (if key r == k then some r else get k rs)
  unfolding get put
  get-put k r [] = refl
  get-put k r (s ∷ rs) = ground (arith, get-put k r rs)

  pub get-put_self : (r : R) (rs : List R) → get (key r) (put r rs) ≡ some r
  get-put_self r rs = ground (arith, get-put (key r) r rs)

  pub get-put_at : (k : K) (r : R) (rs : List R) → key r ≡ k → get k (put r rs) ≡ some r
  get-put_at k r rs h = ground (arith, get-put k r rs)

  pub put-put : (r : R) (rs : List R) → put r (put r rs) ≡ put r rs
  unfolding put
  put-put r [] = ground arith
  put-put r (s ∷ rs) = ground (arith, put-put r rs)

  pub put-put_at : (r s : R) (rs : List R) → key s ≡ key r → put r (put s rs) ≡ put r rs
  unfolding put
  put-put_at r s [] h = ground (arith, h)
  put-put_at r s (t ∷ rs) h = ground (arith, h, put-put_at r s rs h)

  pub get-put_ne : (k : K) (r : R) (rs : List R) → key r ≢ k → get k (put r rs) ≡ get k rs
  get-put_ne k r rs h = ground (arith, get-put k r rs)

  pub get-delete :
      (k j : K) (rs : List R) → get k (delete j rs) ≡ (if j == k then none else get k rs)
  unfolding get delete
  get-delete k j [] = ground arith
  get-delete k j (s ∷ rs) = ground (arith, get-delete k j rs)

  pub key-get : (k : K) (r : R) (rs : List R) → get k rs ≡ some r → key r ≡ k
  unfolding get
  key-get k r [] h = ground arith
  key-get k r (s ∷ rs) h = ground (arith, key-get k r rs)

  module _ (P : R → Type 0) where
    pub All-put : (r : R) (rs : List R) → P r → All P rs → All P (put r rs)
    unfolding put
    All-put r [] hr h = (hr, tt)
    All-put r (s ∷ rs) hr h = ground (arith, All-put r rs hr h.1)

    pub All-get : (k : K) (r : R) (rs : List R) → All P rs → get k rs ≡ some r → P r
    unfolding get
    All-get k r [] h e = absurd (ground arith)
    All-get k r (s ∷ rs) h e = ground (arith, All-get k r rs h.1)

    pub All-delete : (k : K) (rs : List R) → All P rs → All P (delete k rs)
    unfolding delete
    All-delete k [] h = tt
    All-delete k (s ∷ rs) h = ground (arith, All-delete k rs h.1)

  pub get_absent : (k : K) (rs : List R) → All (λ s. key s ≢ k) rs → get k rs ≡ none
  unfolding get
  get_absent k [] h = refl
  get_absent k (s ∷ rs) h = ground (arith, get_absent k rs h.1)

  pub put-IsKeyed : (r : R) (rs : List R) → IsKeyed rs → IsKeyed (put r rs)
  unfolding put
  put-IsKeyed r [] h = (tt, tt)
  put-IsKeyed r (s ∷ rs) h =
      elim (e.dec (key s) (key r))
        as (λ d.
          IsKeyed (if (elim d [ yes p ↦ true | no n ↦ false ]) then r ∷ rs else s ∷ put r rs)) [
            | yes p ↦ (subst (λ k. All (λ t. key t ≢ k) rs) p h.0, h.1)
            | no n ↦ (All-put (λ t. key t ≢ key s) r rs (λ p. n (sym p)) h.0, put-IsKeyed r rs h.1)
          ]

  pub delete-IsKeyed : (k : K) (rs : List R) → IsKeyed rs → IsKeyed (delete k rs)
  unfolding delete
  delete-IsKeyed k [] h = tt
  delete-IsKeyed k (s ∷ rs) h =
      ground (arith, delete-IsKeyed k rs h.1, All-delete (λ t. key t ≢ key s) k rs)

  insert_by-IsKeyed :
      (le : R → R → Bool) (r : R) (rs : List R)
      → All (λ s. key s ≢ key r) rs
      → IsKeyed rs
      → IsKeyed (insert_by le r rs)
  insert_by-IsKeyed le r [] a h = (tt, tt)
  insert_by-IsKeyed le r (s ∷ rs) a h = ground (
    arith,
    insert_by-IsKeyed le r rs a.1 h.1,
    All-insert_by (λ t. key t ≢ key s) le r rs (λ p. a.0 (sym p)) h.0,
  )

  pub sort_by-IsKeyed : (le : R → R → Bool) (rs : List R) → IsKeyed rs → IsKeyed (sort_by le rs)
  unfolding sort_by
  sort_by-IsKeyed le [] h = tt
  sort_by-IsKeyed le (r ∷ rs) h =
      insert_by-IsKeyed le r (sort_by le rs) (All-sort_by (λ s. key s ≢ key r) le rs h.0)
        (sort_by-IsKeyed le rs h.1)

  -- The row is the one that its key finds.
  abbrev pub Found : List R → R → Type 0
  Found table r = get (key r) table ≡ some r

  Found-cons :
      (s : R) (rs xs : List R)
      → All (λ t. key t ≢ key s) xs
      → All (Found rs) xs
      → All (Found (s ∷ rs)) xs
  unfolding get
  Found-cons s rs [] a h = tt
  Found-cons s rs (x ∷ xs) a h =
      (ground (arith, λ (p : key s ≡ key x). a.0 (sym p)), Found-cons s rs xs a.1 h.1)

  pub rows-Found : (rs : List R) → IsKeyed rs → All (Found rs) rs
  unfolding get
  rows-Found [] h = tt
  rows-Found (s ∷ rs) h = (ground arith, Found-cons s rs rs h.0 (rows-Found rs h.1))

  pub select-IsKeyed : (p : R → Bool) (rs : List R) → IsKeyed rs → IsKeyed (select p rs)
  select-IsKeyed p [] h = tt
  select-IsKeyed p (s ∷ rs) h =
      ground (arith, select-IsKeyed p rs h.1, All-select (λ t. key t ≢ key s) p rs)

  pub take-IsKeyed : (n : ℕ) (rs : List R) → IsKeyed rs → IsKeyed (take n rs)
  take-IsKeyed zero rs h = tt
  take-IsKeyed (suc n) [] h = tt
  take-IsKeyed (suc n) (s ∷ rs) h = (All-take (λ t. key t ≢ key s) n rs h.0, take-IsKeyed n rs h.1)
