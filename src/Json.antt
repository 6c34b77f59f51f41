-- ===== src/Json.antt =====
-- JSON values as Python holds them: what event payloads, payload schemas, messages and match-key
-- options are made of. A `dict` is a list of fields in insertion order. `float m k` is the float
-- m / 2 ^ k: every finite float has this form.
use hermes_event_server.Base.{
  ℕ, suc, ◌+◌, ◌^◌, String, Bool, true, false, Option, none, some, List, [], ◌∷◌, nat_beq,
  if◌then◌else◌, not,
}
use hermes_event_server.Base.Int.{ℤ, pos, pos_part, neg_part, ltb_ℤ, ◌*ℤ◌}
use hermes_event_server.Base.Equality.{◌==◌, string_eq}

mutual
  pub data Json : Type 0 where
    null : Json
    bool : Bool → Json
    int : ℤ → Json
    float : ℤ → ℕ → Json
    str : String → Json
    list : Items → Json
    dict : Fields → Json

  pub data Items : Type 0 where
    nil : Items
    cons : Json → Items → Items

  pub data Fields : Type 0 where
    end : Fields
    field : String → Json → Fields → Fields

-- `d.get(key)`; `none` is a missing key.
abbrev pub get_field : String → Fields → Option Json
get_field k end = none
get_field k (field j v rest) = if j == k then some v else get_field k rest

-- `key in d`
abbrev pub has_field : String → Fields → Bool
has_field k fs = elim (get_field k fs) [ none ↦ false | some v ↦ true ]

abbrev pub item_list : Items → List Json
item_list nil = []
item_list (cons v vs) = v ∷ item_list vs

abbrev pub count_items : Items → ℕ
count_items nil = 0
count_items (cons v vs) = suc (count_items vs)

abbrev pub keys : Fields → List String
keys end = []
keys (field k v rest) = k ∷ keys rest

-- A list of texts as a value.
abbrev pub str_items : List String → Items
str_items [] = nil
str_items (s ∷ ss) = cons (str s) (str_items ss)

abbrev pub optional_str : Option String → Json
optional_str none = null
optional_str (some s) = str s

-- Python compares `m / 2 ^ k` with `n / 2 ^ j` exactly, ints included.
scale : ℕ → ℤ → ℤ
scale k m = m *ℤ pos (2 ^ k)

unfoldable pub number_lt : ℤ → ℕ → ℤ → ℕ → Bool
unfolding scale ◌*ℤ◌
number_lt m k n j = ltb_ℤ (scale j m) (scale k n)

eq_ℤ : ℤ → ℤ → Bool
eq_ℤ a b = nat_beq (pos_part a + neg_part b) (pos_part b + neg_part a)

unfoldable pub number_eq : ℤ → ℕ → ℤ → ℕ → Bool
unfolding scale ◌*ℤ◌ eq_ℤ
number_eq m k n j = eq_ℤ (scale j m) (scale k n)

-- `bool` is a subclass of `int`: `True == 1`.
abbrev pub as_number : Json → Option (ℤ × ℕ)
as_number (bool true) = some (pos 1, 0)
as_number (bool false) = some (pos 0, 0)
as_number (int n) = some (n, 0)
as_number (float m k) = some (m, k)
as_number _ = none

-- `bool(value)`
abbrev pub is_truthy : Json → Bool
is_truthy null = false
is_truthy (bool b) = b
is_truthy (int m) = not (nat_beq (pos_part m + neg_part m) 0)
is_truthy (float m k) = not (nat_beq (pos_part m + neg_part m) 0)
is_truthy (str s) = not (s == "")
is_truthy (list vs) = not (nat_beq (count_items vs) 0)
is_truthy (dict end) = false
is_truthy (dict (field k v rest)) = true

-- `value is True`, for the value of a key that may be missing.
abbrev pub is_true : Option Json → Bool
is_true (some (bool b)) = b
is_true _ = false
