-- ===== src/Warframe/Times.antt =====
-- The times of src/eventserver/providers/warframe/worldstate_adapter.py. The division of milliseconds
-- by 1000 is exact here; in floats it is so, to the microsecond, before the year 2255.
use hermes_event_server.Base.{ℕ, suc, ◌+◌, ◌-◌, ◌*◌, ◌/◌, ◌%◌, ◌^◌, ltb, leb, if◌then◌else◌}
use hermes_event_server.Base.Int.{ℤ, pos, negsuc, sub_ℕ}
use hermes_event_server.Base.Equality.{string_eq}
use hermes_event_server.Base.Action.{
  Error, Result, ok, err, value_error, overflow_error, world_state_schema_error,
}
use hermes_event_server.Models.{Time, seconds}

-- The epoch, and the first moment after `datetime.max`, in microseconds since `datetime.min`.
abbrev pub epoch : Time
epoch = 62_135_596_800_000_000

abbrev pub end_of_time : Time
end_of_time = 315_537_897_600_000_000

abbrev pub time_limit : Error → ℕ → Result Time
time_limit e t = if ltb t end_of_time then ok t else err e

abbrev pub out_of_range : ℕ → Error
out_of_range seconds = if ltb seconds (2 ^ 63) then value_error else overflow_error

-- `datetime.fromtimestamp(n, tz=UTC)` for a number of seconds.
unfoldable pub from_seconds : ℤ → Result Time
from_seconds (pos n) = time_limit (out_of_range n) (epoch + seconds n)
from_seconds (negsuc n) =
    if leb (seconds (suc n)) epoch then ok (epoch - seconds (suc n)) else err (out_of_range (suc n))

-- The same for milliseconds; `_bson_date` turns both errors into one.
unfoldable pub from_milliseconds : ℤ → Result Time
from_milliseconds (pos n) = time_limit world_state_schema_error (epoch + n * 1000)
from_milliseconds (negsuc n) =
    if leb (suc n * 1000) epoch then ok (epoch - suc n * 1000) else err world_state_schema_error

-- `int(t.timestamp())`, which rounds towards 1970.
unfoldable pub timestamp : Time → ℤ
timestamp t =
    if leb epoch t then pos ((t - epoch) / 1_000_000) else sub_ℕ 0 ((epoch - t) / 1_000_000)

-- `t.replace(second=0, microsecond=0)`
unfoldable pub to_minute : Time → Time
to_minute t = t - t % 60_000_000
