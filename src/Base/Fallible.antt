-- ===== src/Base/Fallible.antt =====
-- Chains of calls that may raise and keep no state.
use hermes_event_server.Base.{◌≡◌, refl, Bool, true, false, Option, none, some, arith}
use hermes_event_server.Base.Action.{Error, Result, ok, err}

module _ {A : Type 0} where
  abbrev pub pure : A → Result A
  pure a = ok a

  abbrev pub or_raise : Option A → Error → Result A
  or_raise none e = err e
  or_raise (some a) e = ok a

abbrev pub raise_if : Bool → Error → Result (Unit {0})
raise_if true e = err e
raise_if false e = ok tt

module _ {A B : Type 0} where
  infixl 5 ◌>>=◌ ◌>>◌
  abbrev pub ◌>>=◌ : Result A → (A → Result B) → Result B
  ok a >>= f = f a
  err e >>= f = err e

  abbrev pub ◌>>◌ : Result A → Result B → Result B
  m >> n = m >>= λ _. n

  -- What a chain that succeeds went through.
  pub bind-ok :
      (m : Result A) (f : A → Result B) (b : B)
      → (m >>= f) ≡ ok b
      → (a : A) × (m ≡ ok a) × (f a ≡ ok b)
  bind-ok (ok a) f b h = (a, refl, h)
  bind-ok (err e) f b h = absurd (ground (arith, h))

pub raise_if-ok : (b : Bool) (e : Error) (u : Unit {0}) → raise_if b e ≡ ok u → b ≡ false
raise_if-ok true e u h = absurd (ground (arith, h))
raise_if-ok false e u h = refl
