-- ===== src/Api/PairingRoutes.antt =====
-- src/eventserver/api/pairing.py: requests for pairing codes, with the parameters of the pairing codes.
use hermes_event_server.Base.{ℕ, String, Option, none, some}
use hermes_event_server.Base.Equality.{string_eq, nat_eq, pair_eq}
use hermes_event_server.Base.Action.{Error, authorization_error, pairing_code_error}
use hermes_event_server.Models.{Time, PairingCode, Database}
use hermes_event_server.Users.{PermissionSnapshot}
use hermes_event_server.Pairing.{Approval, create_pairing_code, approve_pairing_code}
use hermes_event_server.Api.{Reply, handle}

abbrev pub pairing_errors : Error → Option ℕ
pairing_errors authorization_error = some 403
pairing_errors pairing_code_error = some 404
pairing_errors _ = none

module _ (sha256 upper : String → String) where
  -- The default of ten minutes.
  unfoldable pub new_pairing_code :
      (ℕ → String) → String → String → Time → Database → Reply (String × PairingCode) × Database
  new_pairing_code choices platform openid now =
      handle (λ e. none) (create_pairing_code sha256 upper choices platform openid 10 now)

  unfoldable pub approve_code : Approval → Time → Database → Reply PermissionSnapshot × Database
  approve_code r now = handle pairing_errors (approve_pairing_code sha256 upper r now)
