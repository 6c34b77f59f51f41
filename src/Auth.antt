-- ===== src/Auth.antt =====
-- src/eventserver/auth: who may call the handlers. Credentials are the scheme and the token of a bearer
-- header; `lower` is `str.lower`, `sha256` the hex digest, `compare_digest` equality.
use hermes_event_server.Base.{
  String, Bool, false, ◌&&◌, Option, none, some, List, [], ◌∷◌, if◌then◌else◌,
}
use hermes_event_server.Base.Equality.{◌==◌, string_eq, nat_eq, pair_eq}
use hermes_event_server.Models.{EventPublisher, Database}
use hermes_event_server.Api.{Reply, reply, http_exception}

pub record Credentials : Type 0 where
  pub scheme : String
  pub credentials : String

module _ (lower : String → String) where
  abbrev pub is_bearer : Option Credentials → Bool
  is_bearer none = false
  is_bearer (some c) = lower c.scheme == "bearer"

  abbrev pub token_of : Option Credentials → String
  token_of none = ""
  token_of (some c) = c.credentials

  unfoldable pub require_service_auth : Option Credentials → String → Reply (Unit {0})
  require_service_auth c internal_api_token =
      if internal_api_token == ""
      then http_exception 503
      else if is_bearer c && token_of c == internal_api_token
      then reply tt
      else http_exception 401

  module _ (sha256 : String → String) where
    -- The first enabled publisher with the token's digest.
    unfoldable pub find_publisher : String → List EventPublisher → Option EventPublisher
    find_publisher supplied_hash [] = none
    find_publisher supplied_hash (p ∷ ps) =
        let rest = find_publisher supplied_hash ps in
        if p.enabled && supplied_hash == p.token_hash then some p else rest

    abbrev pub publisher_or_401 : Option EventPublisher → Reply EventPublisher
    publisher_or_401 none = http_exception 401
    publisher_or_401 (some p) = reply p

    unfoldable pub require_publisher_auth : Option Credentials → Database → Reply EventPublisher
    require_publisher_auth c db =
        if is_bearer c
        then publisher_or_401 (find_publisher (sha256 (token_of c)) db.publishers)
        else http_exception 401
