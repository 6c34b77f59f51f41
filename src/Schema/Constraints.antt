-- ===== src/Schema/Constraints.antt =====
-- `const`, `enum` and `required`, for an object: what they say, and that the checks decide it.
use hermes_event_server.Base.{
  String, ◌≡◌, refl, sym, subst, ◌⊎◌, inl, inr, true, false, not, Option, none, some, List, [],
  arith, All, Bool-cases, any,
}
use hermes_event_server.Base.Equality.{string_eq, nat_eq, pair_eq}
use hermes_event_server.Json.{
  Json, Items, Fields, null, bool, int, float, str, list, dict, nil, cons, has_field, item_list,
}
use hermes_event_server.Schema.{
  accepted, check_const, check_enum, is_str, texts, text_list, required_names,
}
use hermes_event_server.Schema.Equality.{json_eq, is_option}

abbrev pub FitsConst : Option Json → Fields → Type 0
FitsConst none value = Unit
FitsConst (some c) value = json_eq (dict value) c ≡ true

abbrev pub IsAmong : Fields → Items → Type 0
IsAmong value nil = true ≡ false
IsAmong value (cons o rest) = (json_eq (dict value) o ≡ true) ⊎ IsAmong value rest

abbrev pub FitsEnum : Option Json → Fields → Type 0
FitsEnum none value = Unit
FitsEnum (some (list options)) value = IsAmong value options
FitsEnum (some _) value = true ≡ false

-- `required`: absent, or a list of names of fields that the object has.
abbrev pub HasNamed : Fields → Json → Type 0
HasNamed value (str name) = has_field name value ≡ true
HasNamed value _ = true ≡ false

abbrev pub HasRequired : Option Json → Fields → Type 0
HasRequired none value = Unit
HasRequired (some (list names)) value = All (HasNamed value) (item_list names)
HasRequired (some _) value = true ≡ false

pub check_const_sound :
    (o : Option Json) (value : Fields) → check_const o (dict value) ≡ accepted → FitsConst o value
unfolding check_const
check_const_sound none value h = tt
check_const_sound (some c) value h = ground (arith, h)

pub check_const_complete :
    (o : Option Json) (value : Fields) → FitsConst o value → check_const o (dict value) ≡ accepted
unfolding check_const
check_const_complete none value h = refl
check_const_complete (some c) value h = rw h refl

is_option-IsAmong :
    (value : Fields) (os : Items) → is_option (dict value) os ≡ true → IsAmong value os
unfolding is_option
is_option-IsAmong value nil h = absurd (ground (arith, h))
is_option-IsAmong value (cons o os) h = elim (Bool-cases (json_eq (dict value) o)) [
  | inl q ↦ inl q
  | inr q ↦ inr (is_option-IsAmong value os (rw q at h))
]

IsAmong-is_option :
    (value : Fields) (os : Items) → IsAmong value os → is_option (dict value) os ≡ true
unfolding is_option
IsAmong-is_option value nil h = absurd (ground (arith, h))
IsAmong-is_option value (cons o os) (inl q) = rw q refl
IsAmong-is_option value (cons o os) (inr later) = ground (arith, IsAmong-is_option value os later)

pub check_enum_sound :
    (o : Option Json) (value : Fields) → check_enum o (dict value) ≡ accepted → FitsEnum o value
unfolding check_enum
check_enum_sound none value h = tt
check_enum_sound (some (list os)) value h = is_option-IsAmong value os (ground (arith, h))
check_enum_sound (some null) value h = absurd (ground (arith, h))
check_enum_sound (some (bool b)) value h = absurd (ground (arith, h))
check_enum_sound (some (int n)) value h = absurd (ground (arith, h))
check_enum_sound (some (float m k)) value h = absurd (ground (arith, h))
check_enum_sound (some (str s)) value h = absurd (ground (arith, h))
check_enum_sound (some (dict fs)) value h = absurd (ground (arith, h))

pub check_enum_complete :
    (o : Option Json) (value : Fields) → FitsEnum o value → check_enum o (dict value) ≡ accepted
unfolding check_enum
check_enum_complete none value h = refl
check_enum_complete (some (list os)) value h = rw (IsAmong-is_option value os h) refl
check_enum_complete (some null) value h = absurd (ground (arith, h))
check_enum_complete (some (bool b)) value h = absurd (ground (arith, h))
check_enum_complete (some (int n)) value h = absurd (ground (arith, h))
check_enum_complete (some (float m k)) value h = absurd (ground (arith, h))
check_enum_complete (some (str s)) value h = absurd (ground (arith, h))
check_enum_complete (some (dict fs)) value h = absurd (ground (arith, h))

-- The names of a list of texts, and the fields that the object has.
named_sound :
    (ts : Items) (value : Fields)
    → any (λ t. not (is_str t)) (item_list ts) ≡ false
    → any (λ name. not (has_field name value)) (texts ts) ≡ false
    → All (HasNamed value) (item_list ts)
named_sound nil value q h = tt
named_sound (cons (str s) ts) value q h =
    (ground (arith, h), named_sound ts value (ground (arith, q)) (ground (arith, h)))
named_sound (cons null ts) value q h = absurd (ground (arith, q))
named_sound (cons (bool b) ts) value q h = absurd (ground (arith, q))
named_sound (cons (int n) ts) value q h = absurd (ground (arith, q))
named_sound (cons (float m k) ts) value q h = absurd (ground (arith, q))
named_sound (cons (list xs) ts) value q h = absurd (ground (arith, q))
named_sound (cons (dict fs) ts) value q h = absurd (ground (arith, q))

named_complete :
    (ts : Items) (value : Fields)
    → All (HasNamed value) (item_list ts)
    → (any (λ t. not (is_str t)) (item_list ts) ≡ false)
      × (any (λ name. not (has_field name value)) (texts ts) ≡ false)
named_complete nil value h = (refl, refl)
named_complete (cons (str s) ts) value h = let (q, p) = named_complete ts value h.1 in (q, rw h.0 p)
named_complete (cons null ts) value h = absurd (ground (arith, h.0))
named_complete (cons (bool b) ts) value h = absurd (ground (arith, h.0))
named_complete (cons (int n) ts) value h = absurd (ground (arith, h.0))
named_complete (cons (float m k) ts) value h = absurd (ground (arith, h.0))
named_complete (cons (list xs) ts) value h = absurd (ground (arith, h.0))
named_complete (cons (dict fs) ts) value h = absurd (ground (arith, h.0))

pub required_sound :
    (o : Option Json) (value : Fields) (names : List String)
    → required_names o ≡ some names
    → any (λ name. not (has_field name value)) names ≡ false
    → HasRequired o value
required_sound none value names e h = tt
required_sound (some (list ts)) value names e h =
    elim (Bool-cases (any (λ t. not (is_str t)) (item_list ts))) [
      | inl q ↦ absurd (ground (arith, rw (required_names, text_list, q) at e))
      | inr q ↦
          let same : texts ts ≡ names = ground (arith, rw (required_names, text_list, q) at e) in
          named_sound ts value q
            (subst (λ ns. any (λ name. not (has_field name value)) ns ≡ false) (sym same) h)
    ]
required_sound (some null) value names e h = absurd (ground (arith, e))
required_sound (some (bool b)) value names e h = absurd (ground (arith, e))
required_sound (some (int n)) value names e h = absurd (ground (arith, e))
required_sound (some (float m k)) value names e h = absurd (ground (arith, e))
required_sound (some (str s)) value names e h = absurd (ground (arith, e))
required_sound (some (dict fs)) value names e h = absurd (ground (arith, e))

abbrev pub IsPresent : Option Json → Fields → Type 0
IsPresent o value =
    (names : List String) × (required_names o ≡ some names)
    × (any (λ name. not (has_field name value)) names ≡ false)

pub required_complete : (o : Option Json) (value : Fields) → HasRequired o value → IsPresent o value
required_complete none value h = ([], refl, refl)
required_complete (some (list ts)) value h =
    let (q, p) = named_complete ts value h in (texts ts, rw (required_names, text_list, q) refl, p)
required_complete (some null) value h = absurd (ground (arith, h))
required_complete (some (bool b)) value h = absurd (ground (arith, h))
required_complete (some (int n)) value h = absurd (ground (arith, h))
required_complete (some (float m k)) value h = absurd (ground (arith, h))
required_complete (some (str s)) value h = absurd (ground (arith, h))
required_complete (some (dict fs)) value h = absurd (ground (arith, h))
