-- ===== src/Warframe/Client.antt =====
-- src/eventserver/providers/warframe/client.py: the world state is requested a bounded number of
-- times, with growing pauses. What httpx returns or raises at an attempt is an argument; `loads` is
-- json.loads, with no value where it raises one of the two errors that are caught, and `int_of`
-- Python's `int`, with no value on a ValueError. A body that httpx cannot decode is not looked at.
use hermes_event_server.Base.{
  ℕ, zero, suc, ◌^◌, String, Bool, true, false, Option, none, some, List, [], ◌∷◌, ◌++◌, ltb,
  nat_beq, if◌then◌else◌, length,
}
use hermes_event_server.Base.Int.{ℤ, pos, negsuc}
use hermes_event_server.Base.Equality.{◌==◌, string_eq}
use hermes_event_server.Json.{Json, Fields, dict}

pub data FetchError : Type 0 where
  transport_error : FetchError
  world_state_error : FetchError
  header_error : FetchError

pub data Fetched : Type 0 where
  fetched : Fields → Fetched
  failed : FetchError → Fetched

-- A response, up to the end of its body or the error of the transport that breaks it off.
pub record Response : Type 0 where
  pub status_code : ℕ
  pub content_length : Option String
  pub chunks : List (List ℕ)
  pub is_broken : Bool

abbrev pub exceeds : ℤ → ℕ → Bool
exceeds (pos n) limit = ltb limit n
exceeds (negsuc n) limit = false

abbrev pub is_caught : FetchError → Bool
is_caught transport_error = true
is_caught world_state_error = true
is_caught header_error = false

module _ (loads : List ℕ → Option Json) (int_of : String → Option ℤ) (max_response_bytes : ℕ) where
  abbrev pub decoded : Option Json → Fetched
  decoded (some (dict payload)) = fetched payload
  decoded _ = failed world_state_error

  -- The loop over the chunks, and what follows it.
  unfoldable pub read_body : List ℕ → List (List ℕ) → Bool → Fetched
  read_body body [] true = failed transport_error
  read_body body [] false = decoded (loads body)
  read_body body (chunk ∷ chunks) broken =
      let rest = read_body (body ++ chunk) chunks broken in
      if ltb max_response_bytes (length (body ++ chunk)) then failed world_state_error else rest

  abbrev pub within_length : Option ℤ → Fetched → Fetched
  within_length none rest = failed header_error
  within_length (some n) rest =
      if exceeds n max_response_bytes then failed world_state_error else rest

  -- `if content_length and int(content_length) > self.max_response_bytes`
  abbrev pub check_length : Option String → Fetched → Fetched
  check_length none rest = rest
  check_length (some s) rest = if s == "" then rest else within_length (int_of s) rest

  -- `_fetch_once`; `none` where no response comes at all.
  unfoldable pub fetch_once : Option Response → Fetched
  fetch_once none = failed transport_error
  fetch_once (some r) =
      if nat_beq r.status_code 200
      then check_length r.content_length (read_body [] r.chunks r.is_broken)
      else failed world_state_error

  -- A pause before the attempts that follow; pauses are in quarters of a second.
  abbrev pub paused : ℕ → Fetched × List ℕ → Fetched × List ℕ
  paused attempt (result, pauses) = (result, 2 ^ attempt ∷ pauses)

  abbrev pub after_attempt : ℕ → ℕ → Fetched → Fetched × List ℕ → Fetched × List ℕ
  after_attempt left attempt (fetched payload) rest = (fetched payload, [])
  after_attempt left attempt (failed e) rest =
      if is_caught e
      then (if nat_beq left 0 then (failed world_state_error, []) else paused attempt rest)
      else (failed e, [])

  -- The loop, with the attempts that are left, and the number of the next one.
  unfoldable pub fetch_from : (ℕ → Option Response) → ℕ → ℕ → Fetched × List ℕ
  fetch_from response zero attempt = (failed world_state_error, [])
  fetch_from response (suc left) attempt =
      after_attempt left attempt (fetch_once (response attempt))
        (fetch_from response left (suc attempt))

  unfoldable pub fetch : (ℕ → Option Response) → ℕ → Fetched × List ℕ
  fetch response max_attempts = fetch_from response max_attempts 0
