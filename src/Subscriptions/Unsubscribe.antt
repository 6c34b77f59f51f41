-- ===== src/Subscriptions/Unsubscribe.antt =====
-- What a removal leaves.
use hermes_event_server.Base.Equality.{string_eq, nat_eq, pair_eq}
