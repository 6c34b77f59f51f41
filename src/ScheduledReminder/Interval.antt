-- ===== src/ScheduledReminder/Interval.antt =====
-- The loop of `_interval_due`: it ends, and what it finds.
use hermes_event_server.Base.{
  ℕ, zero, suc, ◌+◌, ◌-◌, ◌*◌, ◌/◌, ◌≤◌, ◌<◌, ◌≡◌, sym, ap, subst, ◌↔◌, ◌⊎◌, inl, inr, true, some,
  List, [], ◌∷◌, arith, All, ltb, leb, nat_beq, if◌then◌else◌, Bool-cases, Option-cases,
}
use hermes_event_server.Base.Equality.{contains, string_eq, nat_eq, pair_eq}
use hermes_event_server.Models.{Time}
use native.Mathlib.Nat.{mul-le-mul_right, div-lt_iff_lt-mul}
use hermes_event_server.ScheduledReminder.Scheduling.{
  interval_loop, first_index, rounds, interval_moments,
}

-- A whole number of periods after the anchor.
abbrev pub IsTick : Time → Time → Time → Type 0
IsTick anchor period t = (k : ℕ) × (t ≡ anchor + k * period)

next_multiple : (index period : ℕ) → suc index * period ≡ index * period + period
next_multiple index period = omega arith

shift : (index fuel period : ℕ) → (suc index + fuel) * period ≡ (index + suc fuel) * period
shift index fuel period = ap (λ n. n * period) (omega arith)

abbrev pub Ascends : List Time → Type 0
Ascends [] = Unit {0}
Ascends (t ∷ ts) = All (λ u. t < u) ts × Ascends ts

All-raise : (a b : Time) (ts : List Time) → a < b → All (λ t. b ≤ t) ts → All (λ t. a < t) ts
All-raise a b [] l h = tt
All-raise a b (t ∷ ts) l h = (omega (arith, h.0), All-raise a b ts l h.1)

All-lower : (a b : Time) (ts : List Time) → a ≤ b → All (λ t. b ≤ t) ts → All (λ t. a ≤ t) ts
All-lower a b [] l h = tt
All-lower a b (t ∷ ts) l h = (omega (arith, h.0), All-lower a b ts l h.1)

module _ (anchor period after until : Time) (positive : 0 < period) where
  -- The moments from an index on that lie in the bounds, and no others, in ascending order.
  pub record Finds (index : ℕ) (due : List Time) : Type 0 where
    pub sound :
        (t : Time)
        → contains due t ≡ true
        → (after < t) × (t ≤ until) × (k : ℕ) × (index ≤ k) × (t ≡ anchor + k * period)
    pub complete :
        (k : ℕ)
        → index ≤ k
        → after < anchor + k * period
        → anchor + k * period ≤ until
        → contains due (anchor + k * period) ≡ true
    pub above : All (λ t. anchor + index * period ≤ t) due
    pub ascends : Ascends due

  Finds-stop : (index : ℕ) → until < anchor + index * period → Finds index []
  Finds-stop index h = record {
    sound = (λ t m. absurd (ground (arith, m)));
    complete = (λ k more a b. absurd (omega (arith, mul-le-mul_right period more)));
    above = tt;
    ascends = tt;
  }

  abbrev kept : Time → List Time → List Time
  kept candidate due = if ltb after candidate then candidate ∷ due else due

  kept_sound :
      (c t : Time) (due : List Time)
      → contains (kept c due) t ≡ true
      → (after < c) × (c ≡ t) ⊎ (contains due t ≡ true)
  kept_sound c t due h = ground (arith, h)

  kept_self : (c : Time) (due : List Time) → after < c → contains (kept c due) c ≡ true
  kept_self c due h = ground (arith, h)

  kept_other :
      (c t : Time) (due : List Time) → contains due t ≡ true → contains (kept c due) t ≡ true
  kept_other c t due h = ground (arith, h)

  step_sound :
      (index : ℕ) (due : List Time) (f : Finds (suc index) due) (t : Time)
      → anchor + index * period ≤ until
      → (after < anchor + index * period) × (anchor + index * period ≡ t) ⊎ (contains due t ≡ true)
      → (after < t) × (t ≤ until) × (k : ℕ) × (index ≤ k) × (t ≡ anchor + k * period)
  step_sound index due f t h (inl (a, e)) =
      (omega (arith, a, e), omega (arith, h, e), index, omega arith, sym e)
  step_sound index due f t h (inr m) =
      let (a, b, k, l, e) = f.sound t m in (a, b, k, omega arith, e)

  step_complete :
      (index : ℕ) (due : List Time) (f : Finds (suc index) due) (k : ℕ)
      → index ≤ k
      → after < anchor + k * period
      → anchor + k * period ≤ until
      → contains (kept (anchor + index * period) due) (anchor + k * period) ≡ true
  step_complete index due f k l a b = elim (Bool-cases (nat_beq index k)) [
    | inl q ↦
        let same : index ≡ k = ground (arith, q) in
        subst (λ j. contains (kept (anchor + index * period) due) (anchor + j * period) ≡ true) same
          (kept_self (anchor + index * period) due
            (subst (λ j. after < anchor + j * period) (sym same) a))
    | inr q ↦
        kept_other (anchor + index * period) (anchor + k * period) due
          (f.complete k (ground (arith, q, l)) a b)
  ]

  later : (index : ℕ) → anchor + index * period < anchor + suc index * period
  later index = omega (arith, next_multiple index period)

  kept-above :
      (index : ℕ) (due : List Time) (f : Finds (suc index) due)
      → All (λ t. anchor + index * period ≤ t) (kept (anchor + index * period) due)
  kept-above index due f =
      let rest : All (λ t. anchor + index * period ≤ t) due =
        All-lower (anchor + index * period) (anchor + suc index * period) due
          (omega (arith, later index)) f.above in
      elim (Bool-cases (ltb after (anchor + index * period))) [
        | inl q ↦ rw q (omega arith, rest)
        | inr q ↦ rw q rest
      ]

  kept-Ascends :
      (index : ℕ) (due : List Time) (f : Finds (suc index) due)
      → Ascends (kept (anchor + index * period) due)
  kept-Ascends index due f = ground (
    arith,
    f.ascends,
    All-raise (anchor + index * period) (anchor + suc index * period) due (later index) f.above,
  )

  Finds-step :
      (index : ℕ) (due : List Time)
      → Finds (suc index) due
      → anchor + index * period ≤ until
      → Finds index (kept (anchor + index * period) due)
  Finds-step index due f h = record {
    sound = (λ t m. step_sound index due f t h (kept_sound (anchor + index * period) t due m));
    complete = (λ k l a b. step_complete index due f k l a b);
    above = kept-above index due f;
    ascends = kept-Ascends index due f;
  }

  loop-stop :
      (fuel index : ℕ)
      → until < anchor + index * period
      → interval_loop anchor period after until (suc fuel) index ≡ some []
  unfolding interval_loop
  loop-stop fuel index h = ground (arith, h)

  loop-step :
      (fuel index : ℕ) (due : List Time)
      → anchor + index * period ≤ until
      → interval_loop anchor period after until fuel (suc index) ≡ some due
      → interval_loop anchor period after until (suc fuel) index
        ≡ some (kept (anchor + index * period) due)
  unfolding interval_loop
  loop-step fuel index due h e = ground (arith, h, e)

  loop-Finds :
      (fuel index : ℕ)
      → until < anchor + (index + fuel) * period
      → (due : List Time) × (interval_loop anchor period after until (suc fuel) index ≡ some due)
        × Finds index due
  loop-Finds zero index h =
      let past : until < anchor + index * period =
        subst (λ n. until < anchor + n * period) (omega arith) h in
      ([], loop-stop 0 index past, Finds-stop index past)
  loop-Finds (suc fuel) index h = elim (Bool-cases (ltb until (anchor + index * period))) [
    | inl q ↦
        let past : until < anchor + index * period = ground (arith, q) in
        ([], loop-stop (suc fuel) index past, Finds-stop index past)
    | inr q ↦
        let near : anchor + index * period ≤ until = ground (arith, q) in
        let (due, e, f) =
          loop-Finds fuel (suc index)
            (subst (λ n. until < anchor + n) (sym (shift index fuel period)) h) in
        (
          kept (anchor + index * period) due,
          loop-step (suc fuel) index due near e,
          Finds-step index due f near,
        )
  ]

  loop_more :
      (fuel extra index : ℕ) (due : List Time)
      → interval_loop anchor period after until fuel index ≡ some due
      → interval_loop anchor period after until (fuel + extra) index ≡ some due
  unfolding interval_loop
  loop_more zero extra index due h = ground (arith, h)
  loop_more (suc fuel) extra index due h =
      let more : suc fuel + extra ≡ suc (fuel + extra) = omega arith in
      rw more (elim (Option-cases (interval_loop anchor period after until fuel (suc index))) [
        | inl e ↦ ground (arith, rw e at h)
        | inr (d, e) ↦ ground (arith, rw e at h, loop_more fuel extra (suc index) d e)
      ])

  abbrev start : ℕ
  start = first_index anchor period after

  enough : until < anchor + (start + ((until - anchor) / period + 1)) * period
  enough =
      let q : until - anchor < ((until - anchor) / period + 1) * period =
        (div-lt_iff_lt-mul positive).0 (omega arith) in
      let r : ((until - anchor) / period + 1) * period
          ≤ (start + ((until - anchor) / period + 1)) * period =
        mul-le-mul_right period (omega arith) in
      omega (arith, q, r)

  -- No candidate before the first index lies after `after`.
  not_before : (k : ℕ) → after < anchor + k * period → start ≤ k
  unfolding first_index
  not_before k h = elim (Bool-cases (leb anchor after)) [
    | inr q ↦ rw q (omega arith)
    | inl q ↦ rw q (
        let below : (after - anchor) / period < k =
          (div-lt_iff_lt-mul positive).1 (ground (arith, q, h)) in
        omega (arith, below))
  ]

  -- For a positive period the loop ends: with the fuel that the model gives it, or any more, it
  -- returns, and always the same moments.
  pub interval_loop-ends :
      (extra : ℕ)
      → interval_loop anchor period after until
          (rounds anchor period until + extra)
          (first_index anchor period after)
        ≡ some (interval_moments anchor period after until)
  unfolding interval_moments
  interval_loop-ends extra =
      let (due, e, f) = loop-Finds ((until - anchor) / period + 1) start enough in
      let same : rounds anchor period until ≡ suc ((until - anchor) / period + 1) = omega arith in
      rw (same, e) (loop_more (suc ((until - anchor) / period + 1)) extra start due e)

  -- For a positive period the loop finds exactly the moments a whole number of periods after the
  -- anchor that lie after `after` and not after `until`, each once and in ascending order.
  pub interval_moments_exact :
      Ascends (interval_moments anchor period after until)
      × ((t : Time)
          → (contains (interval_moments anchor period after until) t ≡ true)
            ↔ (after < t) × (t ≤ until) × IsTick anchor period t)
  unfolding interval_moments
  interval_moments_exact =
      let (due, e, f) = loop-Finds ((until - anchor) / period + 1) start enough in
      let same : rounds anchor period until ≡ suc ((until - anchor) / period + 1) = omega arith in
      rw (same, e)
        (
          f.ascends,
          λ t. (
            λ m. let (a, b, k, l, q) = f.sound t m in (a, b, (k, q)),
            λ m.
                let (a, b, (k, q)) = m in
                let a' : after < anchor + k * period = rw q at a in
                rw q (f.complete k (not_before k a') a' (rw q at b)),
          ),
        )
