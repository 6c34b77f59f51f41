-- ===== src/Tests/Fetch.antt =====
-- A run of the client of world states: an attempt without a response, then a response.
use hermes_event_server.Base.{
  ℕ, zero, suc, ◌<◌, String, ◌≡◌, refl, true, false, Option, none, some, List, [], ◌∷◌, arith,
}
use hermes_event_server.Base.Int.{ℤ}
use hermes_event_server.Json.{Json, Fields, bool, dict, end, field}
use hermes_event_server.Warframe.Client.{fetched, Response, fetch_once, fetch}
use hermes_event_server.Warframe.Fetching.{fetch_first, is_passing}

abbrev world_state : Fields
world_state = field "ok" (bool true) end

abbrev loads : List ℕ → Option Json
loads body = some (dict world_state)

abbrev no_integer : String → Option ℤ
no_integer s = none

abbrev response : ℕ → Option Response
response zero = none
response (suc i) = some (record {
  status_code = 200;
  content_length = none;
  chunks = (1 ∷ 2 ∷ []) ∷ (3 ∷ []) ∷ [];
  is_broken = false;
})

early : (j : ℕ) → j < 1 → is_passing (fetch_once loads no_integer 3 (response j)) ≡ true
unfolding fetch_once
early zero l = refl
early (suc j) l = ground (arith, l)

second_response : fetch_once loads no_integer 3 (response 1) ≡ fetched world_state
unfolding fetch_once hermes_event_server.Warframe.Client.read_body
second_response = refl

fetch_first_example : fetch loads no_integer 3 response 2 ≡ (fetched world_state, 1 ∷ [])
unfolding hermes_event_server.Warframe.Fetching.growing
fetch_first_example =
    fetch_first loads no_integer 3 response 1 2 world_state (omega arith) early second_response
