-- ===== src/Base/Equality.antt =====
-- Python's `==` and `in` on keys, for every type whose equality can be decided.
use Prim.Native.Nat.{ℕ}
use Prim.Native.String.{String}
use mathlib.Core.Path.{ap, ◌≡◌}
use mathlib.Core.Logic.{◌≢◌, dite}
use mathlib.Core.Bool.{Bool, true, false, ◌||◌, Bool-discrete}
use mathlib.Core.List.{List, [], ◌∷◌}
use native.Mathlib.Omega.{arith}
use native.Mathlib.Decide.{ℕ_discrete}
use text.Mathlib.Text
use text.Mathlib.TextEquality.{eq_iff}

pub record Eq {ℓ} (A : Type ℓ) : Type ℓ where
  pub dec : Discrete A

-- `elim` on the decision: a split yields the equation or its negation.
module _ {ℓ} {A : Type ℓ} ⦃e : Eq A⦄ where
  infix 50 ◌==◌
  abbrev pub ◌==◌ : A → A → Bool
  a == b = elim (e.dec a b) [ yes p ↦ true | no n ↦ false ]

  abbrev pub contains : List A → A → Bool
  contains [] a = false
  contains (x ∷ xs) a = x == a || contains xs a

  pub distinct : (a b : A) → (a == b) ≡ false → a ≢ b
  distinct a b h p = ground (arith, p)

-- Shut in proofs: a split on `s == t` yields the equation or its negation.
unfoldable pub string_discrete : Discrete String
string_discrete s t =
    dite (Bool-discrete (Text.◌==◌ s t) true) (λ same. yes ((eq_iff s t).0 same))
      (λ differ. no (λ p. differ ((eq_iff s t).1 p)))

instance abbrev pub string_eq : Eq String
string_eq = record { dec = string_discrete }

instance abbrev pub nat_eq : Eq ℕ
nat_eq = record { dec = ℕ_discrete }

module _ {ℓ κ} {A : Type ℓ} {B : Type κ} where
  unfoldable pub pair_discrete : Discrete A → Discrete B → Discrete (A × B)
  pair_discrete da db (a, b) (c, d) =
      dite (da a c)
        (λ p.
          dite (db b d) (λ q. yes (λ i. (p i, q i))) (λ n. no (λ r. n (ap (λ (x : A × B). x.1) r))))
        (λ n. no (λ r. n (ap (λ (x : A × B). x.0) r)))

-- Composite primary keys.
instance unfoldable pub pair_eq {ℓ κ} : {A : Type ℓ} {B : Type κ} ⦃e : Eq A⦄ ⦃f : Eq B⦄ → Eq (A × B)
unfolding pair_discrete
pair_eq ⦃e⦄ ⦃f⦄ = record { dec = pair_discrete e.dec f.dec }
