-- ===== src/Warframe/GhoulEvent.antt =====
-- src/eventserver/providers/warframe/ghoul_event.py: an event when the ghouls appear.
use hermes_event_server.Base.{String, true, false, Option, none, some, List, [], ◌∷◌, if◌then◌else◌}
use hermes_event_server.Base.Format.{starts_with}
use hermes_event_server.Base.Action.{Result, ok, err, key_error}
use hermes_event_server.Base.Fallible.{pure, ◌>>=◌}
use hermes_event_server.Json.{bool, str, end, field, get_field, is_true}
use hermes_event_server.Models.{Observation, DomainEvent, DeliveryMessage}
use hermes_event_server.Registry.{Raw, Provider}
use hermes_event_server.Warframe.{
  Environment, raw_get, parse_time, optional_time, optional_isoformat, build_event, require_str,
  require_bool, observation,
}

abbrev pub provider_key : String
provider_key = "warframe.ghoul_event"

abbrev pub event_key : String
event_key = "warframe.ghoul.started"

module _ (env : Environment) where
  unfoldable pub normalize : Raw → Result Observation
  normalize raw = do
    observed_at ← parse_time env (raw_get "observed_at" raw) (some env.now)
    effective_at ← parse_time env (raw_get "effective_at" raw) (some observed_at)
    expires_at ← optional_time env (raw_get "expires_at" raw)
    identity ← require_str raw "identity"
    active ← require_bool raw "active"
    pure (
        observation provider_key identity observed_at effective_at expires_at
          (field "active" (bool active) end))

  unfoldable pub started : Observation → DomainEvent
  started current =
      build_event env event_key provider_key current.identity current.effective_at
        (field "type" (str "world_event") (field "id" (str "ghouls") end))
        (field "expires_at" (optional_isoformat env current.expires_at) end)

  -- `current.state["active"]` is read only when the first two tests have failed.
  unfoldable pub evaluate : Option Observation → Observation → Result (List DomainEvent)
  evaluate none current = ok []
  evaluate (some previous) current = elim (is_true (get_field "active" previous.state)) [
    | true ↦ ok []
    | false ↦ elim (get_field "active" current.state) [
      | none ↦ err key_error
      | some v ↦ if is_true (some v) then ok (started current ∷ []) else ok []
    ]
  ]

unfoldable pub render : DomainEvent → String → DeliveryMessage
render event locale = record {
  title = if starts_with "zh" locale then "事件提醒" else "Event alert";
  text = if starts_with "zh" locale then "尸鬼活动已出现" else "The Ghoul event has started";
  extra = end;
  template_key = "warframe.ghoul.started.default";
  template_version = 1;
}

-- `metadata()` and the calls that the server makes; the locale is the default one.
abbrev pub ghoul_event_provider : Environment → Provider
ghoul_event_provider env = record {
  provider_key = provider_key;
  event_keys = event_key ∷ [];
  normalize = normalize env;
  evaluate = evaluate env;
  render = (λ event. ok (render event "zh-CN"));
}
