-- ===== src/Warframe/KonzuRotation.antt =====
-- src/eventserver/providers/warframe/konzu_rotation.py: an event when Konzu's bounties rotate.
use hermes_event_server.Base.{String, Option, none, some, List, [], ◌∷◌, if◌then◌else◌}
use hermes_event_server.Base.Equality.{◌==◌, string_eq}
use hermes_event_server.Base.Format.{starts_with, concat}
use hermes_event_server.Base.Action.{Result, ok}
use hermes_event_server.Base.Fallible.{pure, ◌>>=◌}
use hermes_event_server.Json.{Json, null, str, end, field, get_field, is_truthy}
use hermes_event_server.Models.{Observation, DomainEvent, DeliveryMessage}
use hermes_event_server.Registry.{RawValue, json, Raw, Provider}
use hermes_event_server.Warframe.{
  Environment, raw_get, parse_time, optional_time, optional_isoformat, build_event, require_str,
  observation,
}

abbrev pub provider_key : String
provider_key = "warframe.konzu_rotation"

abbrev pub event_key : String
event_key = "warframe.konzu.rotation"

-- `raw.get("confirmed_summary")` as a value of the state; the adapter's is always None.
abbrev pub summary_of : Option RawValue → Json
summary_of (some (json v)) = v
summary_of _ = null

abbrev pub or_null : Option Json → Json
or_null none = null
or_null (some v) = v

-- The text of an f-string's `{value}`.
abbrev pub formatted : Environment → Json → String
formatted env (str s) = s
formatted env v = env.text_of v

module _ (env : Environment) where
  unfoldable pub normalize : Raw → Result Observation
  normalize raw = do
    observed_at ← parse_time env (raw_get "observed_at" raw) (some env.now)
    effective_at ← parse_time env (raw_get "effective_at" raw) (some observed_at)
    expires_at ← optional_time env (raw_get "expires_at" raw)
    rotation_id ← require_str raw "rotation_id"
    pure (
        observation provider_key rotation_id observed_at effective_at expires_at (
          field "rotation_id" (str rotation_id)
            (field "confirmed_summary" (summary_of (raw_get "confirmed_summary" raw)) end)))

  unfoldable pub rotated : Observation → DomainEvent
  rotated current =
      build_event env event_key provider_key current.identity current.effective_at
        (field "type" (str "bounty_board") (field "id" (str "konzu") end))
        (field "rotation_id" (str current.identity) (
          field "confirmed_summary" (or_null (get_field "confirmed_summary" current.state))
            (field "expires_at" (optional_isoformat env current.expires_at) end)))

  unfoldable pub evaluate : Option Observation → Observation → Result (List DomainEvent)
  evaluate none current = ok []
  evaluate (some previous) current =
      if previous.identity == current.identity then ok [] else ok (rotated current ∷ [])

  unfoldable pub summary_text : Json → String
  summary_text summary =
      if is_truthy summary
      then concat ("Konzu 赏金已轮换" ∷ "\n" ∷ formatted env summary ∷ [])
      else concat ("Konzu 赏金已轮换" ∷ "\n当前任务详情暂不可可靠解析。" ∷ [])

  unfoldable pub render : DomainEvent → String → DeliveryMessage
  render event locale = record {
    title = if starts_with "zh" locale then "事件提醒" else "Event alert";
    text =
        if starts_with "zh" locale
        then summary_text (or_null (get_field "confirmed_summary" event.payload))
        else "Konzu bounties have rotated";
    extra = end;
    template_key = "warframe.konzu.rotation.default";
    template_version = 1;
  }

-- `metadata()` and the calls that the server makes; the locale is the default one.
abbrev pub konzu_rotation_provider : Environment → Provider
konzu_rotation_provider env = record {
  provider_key = provider_key;
  event_keys = event_key ∷ [];
  normalize = normalize env;
  evaluate = evaluate env;
  render = (λ event. ok (render env event "zh-CN"));
}
