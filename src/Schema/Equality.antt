-- ===== src/Schema/Equality.antt =====
-- Python's `==` on JSON values: numbers by value (`True == 1 == 1.0`), objects without order.
use hermes_event_server.Base.{ℕ, Bool, true, false, ◌&&◌, ◌||◌, Option, none, some, nat_beq, length}
use hermes_event_server.Base.Equality.{◌==◌, string_eq, nat_eq, pair_eq}
use hermes_event_server.Json.{
  Json, Items, Fields, null, bool, int, float, str, list, dict, nil, cons, end, field, get_field,
  keys, number_eq, as_number,
}
use hermes_event_server.Base.Int.{ℤ, pos}

abbrev equal_number : ℤ × ℕ → Option (ℤ × ℕ) → Bool
equal_number x none = false
equal_number (m, k) (some (n, j)) = number_eq m k n j

unfoldable mutual
  pub json_eq : Json → Json → Bool
  json_eq null v = elim v [ null ↦ true | _ ↦ false ]
  json_eq (bool true) v = equal_number (pos 1, 0) (as_number v)
  json_eq (bool false) v = equal_number (pos 0, 0) (as_number v)
  json_eq (int n) v = equal_number (n, 0) (as_number v)
  json_eq (float m k) v = equal_number (m, k) (as_number v)
  json_eq (str s) v = elim v [ str t ↦ s == t | _ ↦ false ]
  json_eq (list xs) v = elim v [ list ys ↦ items_eq xs ys | _ ↦ false ]
  json_eq (dict fs) v = elim v [
    | dict gs ↦ nat_beq (length (keys fs)) (length (keys gs)) && fields_eq fs gs
    | _ ↦ false
  ]

  pub items_eq : Items → Items → Bool
  items_eq nil ys = elim ys [ nil ↦ true | cons y rest ↦ false ]
  items_eq (cons x xs) ys = elim ys [ nil ↦ false | cons y rest ↦ json_eq x y && items_eq xs rest ]

  pub fields_eq : Fields → Fields → Bool
  fields_eq end gs = true
  fields_eq (field k v rest) gs = elim (get_field k gs) [
    | none ↦ false
    | some w ↦ json_eq v w && fields_eq rest gs
  ]

-- `value in options`
unfoldable pub is_option : Json → Items → Bool
is_option v nil = false
is_option v (cons o rest) = json_eq v o || is_option v rest
