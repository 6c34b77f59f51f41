-- ===== src/Administration/Rotation.antt =====
-- A publisher's token: what upsert stores is what authentication accepts, in place of what it had.
use hermes_event_server.Base.{String, ◌≢◌, List, All}
use hermes_event_server.Base.Equality.{string_eq, nat_eq, pair_eq}
use hermes_event_server.Models.{EventPublisher, publisher_key}
use hermes_event_server.Auth.{Credentials}

-- The row of no other publisher has the digest.
abbrev pub IsUnshared : String → String → List EventPublisher → Type 0
IsUnshared key hash rows = All (λ p. p.publisher_key ≢ key → p.token_hash ≢ hash) rows

abbrev bearer : String → String → Credentials
bearer scheme token = record { scheme = scheme; credentials = token }
