-- ===== src/Warframe/Fetching.antt =====
-- src/eventserver/providers/warframe/client.py: which attempt gives the world state.
use hermes_event_server.Base.{
  ℕ, zero, suc, ◌+◌, ◌^◌, ◌≤◌, ◌<◌, String, ◌≡◌, refl, ap, subst, ◌∙◌, Bool, true, false, Option,
  List, [], ◌∷◌, arith,
}
use hermes_event_server.Base.Int.{ℤ}
use hermes_event_server.Json.{Json, Fields}
use hermes_event_server.Warframe.Client.{
  Fetched, fetched, failed, Response, is_caught, after_attempt, fetch_once, fetch_from, fetch,
}

abbrev pub is_passing : Fetched → Bool
is_passing (fetched payload) = false
is_passing (failed e) = is_caught e

-- The pauses before `count` further attempts, the first of them after attempt `attempt`.
unfoldable pub growing : ℕ → ℕ → List ℕ
growing attempt zero = []
growing attempt (suc count) = 2 ^ attempt ∷ growing (suc attempt) count

module _ (loads : List ℕ → Option Json) (int_of : String → Option ℤ) (limit : ℕ) where
  again :
      (left i : ℕ) (x : Fetched) (rest : Fetched × List ℕ)
      → is_passing x ≡ true
      → 1 ≤ left
      → after_attempt loads int_of limit left i x rest ≡ (rest.0, 2 ^ i ∷ rest.1)
  again left i (fetched payload) rest h l = ground (arith, h)
  again left i (failed e) rest h l = ground (arith, h, l)

  fetch_from_first :
      (response : ℕ → Option Response) (k left i : ℕ) (payload : Fields)
      → k < left
      → ((j : ℕ) → j < k → is_passing (fetch_once loads int_of limit (response (i + j))) ≡ true)
      → fetch_once loads int_of limit (response (i + k)) ≡ fetched payload
      → fetch_from loads int_of limit response left i ≡ (fetched payload, growing i k)
  unfolding fetch_from growing
  fetch_from_first response k zero i payload l early h = ground (arith, l)
  fetch_from_first response zero (suc left) i payload l early h =
      let here : fetch_once loads int_of limit (response i) ≡ fetched payload =
        subst (λ n. fetch_once loads int_of limit (response n) ≡ fetched payload) (omega arith) h in
      rw here refl
  fetch_from_first response (suc k) (suc left) i payload l early h =
      let later : fetch_from loads int_of limit response left (suc i)
          ≡ (fetched payload, growing (suc i) k) =
        fetch_from_first response k left (suc i) payload (omega (arith, l))
          (λ j m.
            subst (λ n. is_passing (fetch_once loads int_of limit (response n)) ≡ true)
              (omega arith) (early (suc j) (omega (arith, m))))
          (subst (λ n. fetch_once loads int_of limit (response n) ≡ fetched payload) (omega arith)
            h) in
      let rest = fetch_from loads int_of limit response left (suc i) in
      let now : is_passing (fetch_once loads int_of limit (response i)) ≡ true =
        subst (λ n. is_passing (fetch_once loads int_of limit (response n)) ≡ true) (omega arith)
          (early 0 (omega arith)) in
      again left i (fetch_once loads int_of limit (response i)) rest now (omega (arith, l))
      ∙ ap (λ (r : Fetched × List ℕ). (r.0, 2 ^ i ∷ r.1)) later

  -- If attempt `k`, counted from 0, is the first that does not fail with an error of the transport or
  -- of the world state, and is one of the attempts allowed, and it gives a payload, then `fetch`
  -- returns that payload, after the pauses of 1, 2, 4 ... quarters of a second between the attempts.
  pub fetch_first :
      (response : ℕ → Option Response) (k max_attempts : ℕ) (payload : Fields)
      → k < max_attempts
      → ((j : ℕ) → j < k → is_passing (fetch_once loads int_of limit (response j)) ≡ true)
      → fetch_once loads int_of limit (response k) ≡ fetched payload
      → fetch loads int_of limit response max_attempts ≡ (fetched payload, growing 0 k)
  unfolding fetch
  fetch_first response k max_attempts payload l early h =
      fetch_from_first response k max_attempts 0 payload l
        (λ j m.
          subst (λ n. is_passing (fetch_once loads int_of limit (response n)) ≡ true) (omega arith)
            (early j m))
        (subst (λ n. fetch_once loads int_of limit (response n) ≡ fetched payload) (omega arith) h)
