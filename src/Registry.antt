-- ===== src/Registry.antt =====
-- src/eventserver/core/registry.py and core/provider.py: the providers that a process has, by key and
-- by event. A provider is the object that the registry is given; what it does is its own code.
use hermes_event_server.Base.{String, Option, none, some, List, [], ◌∷◌, map, is_some, any}
use hermes_event_server.Base.Equality.{string_eq, nat_eq, pair_eq}
use hermes_event_server.Base.Table.{get, put}
use hermes_event_server.Base.Action.{
  value_error, Result, Action, gets, modify, raise_if, ◌>>=◌, ◌>>◌,
}
use hermes_event_server.Json.{Json}
use hermes_event_server.Models.{Time, Observation, DomainEvent, DeliveryMessage}

-- A Python datetime: aware of its timezone, with the moment that it stands for, or naive.
pub data Datetime : Type 0 where
  aware : Time → Datetime
  naive : Datetime

-- The values of the `dict[str, Any]` that a provider normalizes.
pub data RawValue : Type 0 where
  json : Json → RawValue
  datetime : Datetime → RawValue

abbrev pub Raw : Type 0
Raw = List (String × RawValue)

-- What the server calls of a provider; each call may raise.
pub record Provider : Type 0 where
  pub provider_key : String
  pub event_keys : List String
  pub normalize : Raw → Result Observation
  pub evaluate : Option Observation → Observation → Result (List DomainEvent)
  pub render : DomainEvent → Result DeliveryMessage

-- The two dictionaries, in the order of insertion.
pub record ProviderRegistry : Type 0 where
  pub providers : List (String × Provider)
  pub events : List (String × Provider)

abbrev pub new_registry : ProviderRegistry
new_registry = record { providers = []; events = [] }

abbrev pub entry_key : String × Provider → String
entry_key e = e.0

abbrev pub second : Option (String × Provider) → Option Provider
second none = none
second (some e) = some e.1

unfoldable pub register_events :
    Provider → List String → List (String × Provider) → List (String × Provider)
register_events provider [] events = events
register_events provider (k ∷ ks) events =
    register_events provider ks (put entry_key (k, provider) events)

-- Both dictionaries are written only after both tests.
unfoldable pub register : Provider → Action ProviderRegistry (Unit {0})
register provider = do
  known ← gets (λ r. is_some (get entry_key provider.provider_key r.providers))
  raise_if known value_error
  duplicates ← gets (λ r. any (λ k. is_some (get entry_key k r.events)) provider.event_keys)
  raise_if duplicates value_error
  modify (λ r. record {
    providers = put entry_key (provider.provider_key, provider) r.providers;
    events = register_events provider provider.event_keys r.events;
  })

unfoldable pub provider_for_event : String → ProviderRegistry → Option Provider
provider_for_event event_key r = second (get entry_key event_key r.events)

unfoldable pub get_provider : String → ProviderRegistry → Option Provider
get_provider key r = second (get entry_key key r.providers)

abbrev pub all_providers : ProviderRegistry → List Provider
all_providers r = map (λ e. e.1) r.providers
