-- ===== src/DemoReminder.antt =====
-- publishers/demo-reminder/src/demo_reminder: a request parameter becomes one publication. schedule.py
-- reads delays, service.py (Service) resolves the time of a reminder, and messages.py its text.
-- Python's functions on texts and floats are parameters: `decimal_digit` and `is_space` say what `\d`
-- and `\s` match, `minutes_of_float` is `int(value * 60)` of the float m / 2 ^ k.

pub mod Service
pub mod Timing
pub mod Messages
use hermes_event_server.Base.{
  ℕ, zero, suc, ◌+◌, ◌-◌, ◌*◌, ◌/◌, ◌%◌, ◌^◌, ◌≤◌, String, Bool, true, false, not, ◌&&◌, ◌||◌,
  Option, none, some, List, [], ◌∷◌, ◌++◌, ltb, leb, nat_beq, if◌then◌else◌,
}
use hermes_event_server.Base.Int.{ℤ, pos, negsuc}
use hermes_event_server.Base.Equality.{◌==◌, string_eq}
use hermes_event_server.Base.Table.{get}
use hermes_event_server.Base.Text.{text_length}
use hermes_event_server.Base.Format.{concat, decimal}
use hermes_event_server.Base.Action.{Result, ok, err, submission_error}
use hermes_event_server.Json.{Json, null, bool, int, float, str, list, dict}
use Prim.Native.String
use Prim.Native.Char.{Char, code}

abbrev pub unit_key : String × ℕ → String
unit_key e = e.0

-- _UNIT_SECONDS
abbrev pub unit_seconds : List (String × ℕ)
unit_seconds =
    ("s", 1)
    ∷ ("sec", 1)
    ∷ ("secs", 1)
    ∷ ("second", 1)
    ∷ ("seconds", 1)
    ∷ ("m", 60)
    ∷ ("min", 60)
    ∷ ("mins", 60)
    ∷ ("minute", 60)
    ∷ ("minutes", 60)
    ∷ ("h", 3600)
    ∷ ("hr", 3600)
    ∷ ("hrs", 3600)
    ∷ ("hour", 3600)
    ∷ ("hours", 3600)
    ∷ []

pub record Python : Type 0 where
  pub strip : String → String
  pub lower : String → String
  pub decimal_digit : Char → Option ℕ
  pub is_space : Char → Bool
  pub minutes_of_float : ℤ → ℕ → ℤ

abbrev pub is_letter : Char → Bool
is_letter c = (leb 65 (code c) && leb (code c) 90) || (leb 97 (code c) && leb (code c) 122)

-- The leading digits: how many, and their number.
pub record Digits : Type 0 where
  pub count : ℕ
  pub value : ℕ
  pub rest : String

unfoldable pub all_letters : String → Bool
all_letters String.[] = true
all_letters (String.◌∷◌ c s) = is_letter c && all_letters s

abbrev pub in_unit : ℕ → Option (String × ℕ) → Result ℕ
in_unit value none = err submission_error
in_unit value (some e) = ok (value * e.1)

-- `_UNIT_SECONDS.get(unit, 60)`, for an empty unit or a known one.
abbrev pub scaled : ℕ → String → Result ℕ
scaled value unit =
    if unit == "" then ok (value * 60) else in_unit value (get unit_key unit unit_seconds)

abbrev pub not_negative : ℤ → Result ℕ
not_negative (pos n) = ok n
not_negative (negsuc n) = err submission_error

abbrev pub at_most : ℕ → ℕ → Result ℕ
at_most limit seconds = if ltb limit seconds then err submission_error else ok seconds

abbrev pub bounded : ℕ → Result ℕ → Result ℕ
bounded limit (err e) = err e
bounded limit (ok seconds) = at_most limit seconds

module _ (python : Python) where
  unfoldable pub take_digits : ℕ → ℕ → String → Digits
  take_digits count value String.[] = record { count = count; value = value; rest = String.[] }
  take_digits count value (String.◌∷◌ c s) = elim (python.decimal_digit c) [
    | none ↦ record { count = count; value = value; rest = String.◌∷◌ c s }
    | some d ↦ take_digits (suc count) (value * 10 + d) s
  ]

  unfoldable pub skip_spaces : String → String
  skip_spaces String.[] = String.[]
  skip_spaces (String.◌∷◌ c s) = if python.is_space c then skip_spaces s else String.◌∷◌ c s

  -- `_DELAY_PATTERN.fullmatch`, with the value and the unit.
  unfoldable pub match_delay : String → Option (ℕ × String)
  match_delay s =
      let d = take_digits 0 0 s in
      let unit = skip_spaces d.rest in
      if (leb 1 d.count && leb d.count 7) && all_letters unit then some (d.value, unit) else none

  abbrev pub text_delay : Option (ℕ × String) → Result ℕ
  text_delay none = err submission_error
  text_delay (some (value, unit)) = scaled value (python.lower unit)

  abbrev pub raw_delay : Json → Result ℕ
  raw_delay (int (pos n)) = ok (n * 60)
  raw_delay (int (negsuc n)) = err submission_error
  raw_delay (float m k) = not_negative (python.minutes_of_float m k)
  raw_delay (str s) = text_delay (match_delay (python.strip s))
  raw_delay _ = err submission_error

  unfoldable pub parse_delay : Json → ℕ → Result ℕ
  parse_delay value max_seconds = bounded max_seconds (raw_delay value)

abbrev pub part : ℕ → String → List String
part n unit = if nat_beq n 0 then [] else concat (decimal n ∷ " " ∷ unit ∷ []) ∷ []

abbrev pub joined : List String → String
joined [] = ""
joined (s ∷ []) = s
joined (s ∷ t ∷ ss) = concat (s ∷ " " ∷ joined (t ∷ ss) ∷ [])

unfoldable pub humanize_delay : ℕ → String
humanize_delay seconds =
    if nat_beq seconds 0
    then "立即"
    else joined (
        part (seconds / 3600) "小时"
        ++ part (seconds % 3600 / 60) "分钟"
        ++ part (seconds % 3600 % 60) "秒")
