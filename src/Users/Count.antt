-- ===== src/Users/Count.antt =====
-- Counting the rows of a keyed table that pass a test.
use hermes_event_server.Base.{
  suc, ◌≤◌, ◌≡◌, refl, subst, ◌≢◌, Bool, true, some, List, [], ◌∷◌, arith, All, select, length,
}
use hermes_event_server.Base.Equality.{Eq, string_eq, nat_eq, pair_eq}
use hermes_event_server.Base.Table.{get, put, IsKeyed}

module _ {R K : Type 0} ⦃e : Eq K⦄ (key : R → K) where
  -- A row that passes is counted.
  pub count_pos :
      (p : R → Bool) (k : K) (r : R) (rs : List R)
      → get key k rs ≡ some r
      → p r ≡ true
      → 1 ≤ length (select p rs)
  unfolding get
  count_pos p k r [] h t = absurd (ground arith)
  count_pos p k r (s ∷ rs) h t = ground (arith, count_pos p k r rs)

  -- Two tests that agree off one key count the same, if no row has the key.
  count_same :
      (p q : R → Bool) (k : K) (rs : List R)
      → ((r : R) → key r ≢ k → p r ≡ q r)
      → All (λ s. key s ≢ k) rs
      → length (select p rs) ≡ length (select q rs)
  count_same p q k [] f a = refl
  count_same p q k (s ∷ rs) f a = ground (arith, f s a.0, count_same p q k rs f a.1)

  -- In a keyed table they differ by one at most.
  pub count-le-suc :
      (p q : R → Bool) (k : K) (rs : List R)
      → ((r : R) → key r ≢ k → p r ≡ q r)
      → IsKeyed key rs
      → length (select p rs) ≤ suc (length (select q rs))
  count-le-suc p q k [] f h = omega arith
  count-le-suc p q k (s ∷ rs) f h = elim (e.dec (key s) k) [
    | yes same ↦
        ground (arith, count_same p q k rs f (subst (λ j. All (λ t. key t ≢ j) rs) same h.0))
    | no differ ↦ ground (arith, f s differ, count-le-suc p q k rs f h.1)
  ]

  -- Writing one row takes away one at most.
  pub count-put :
      (p : R → Bool) (r : R) (rs : List R)
      → length (select p rs) ≤ suc (length (select p (put key r rs)))
  unfolding put
  count-put p r [] = ground arith
  count-put p r (s ∷ rs) = ground (arith, count-put p r rs)
