-- ===== src/Schema/Types.antt =====
-- `type`, for an object: what it says, and that check_type decides it.
use hermes_event_server.Base.{
  String, ◌≡◌, refl, sym, ap, ◌∙◌, ◌⊎◌, inl, inr, Bool, true, false, not, Option, none, some, List,
  [], ◌∷◌, arith, All, Bool-cases, any, if◌then◌else◌,
}
use hermes_event_server.Base.Equality.{◌==◌, contains, string_eq, nat_eq, pair_eq}
use hermes_event_server.Json.{Json, Fields, null, bool, int, float, str, list, dict, item_list}
use hermes_event_server.Schema.{
  Verdict, accepted, refused, has_type, any_type, check_type, not_null, is_str,
}

abbrev pub other_types : List String
other_types = "array" ∷ "string" ∷ "number" ∷ "integer" ∷ "boolean" ∷ "null" ∷ []

-- A list of type names with "object" among them, and only known names before it.
abbrev pub NamesObject : List Json → Type 0
NamesObject [] = true ≡ false
NamesObject (str t ∷ ts) = (t ≡ "object") ⊎ ((contains other_types t ≡ true) × NamesObject ts)
NamesObject (_ ∷ ts) = true ≡ false

abbrev pub IsTextValue : Json → Type 0
IsTextValue (str s) = Unit
IsTextValue _ = true ≡ false

-- `type`: absent, null, "object", or a list of texts that names it.
abbrev pub FitsType : Option Json → Type 0
FitsType none = Unit
FitsType (some null) = Unit
FitsType (some (str t)) = t ≡ "object"
FitsType (some (list ts)) = All IsTextValue (item_list ts) × NamesObject (item_list ts)
FitsType (some _) = true ≡ false

same_text : (s t : String) → s ≡ t → (s == t) ≡ true
same_text s t h = ground (arith, h)

has_type-object :
    (t : String) (value : Fields)
    → has_type t (dict value)
      ≡ (if t == "object" then some true else if contains other_types t then some false else none)
unfolding has_type
has_type-object t value = ground arith

object_typed :
    (t : String) (value : Fields) → (t == "object") ≡ true → has_type t (dict value) ≡ some true
object_typed t value q = has_type-object t value ∙ rw q refl

other_typed :
    (t : String) (value : Fields)
    → (t == "object") ≡ false
    → contains other_types t ≡ true
    → has_type t (dict value) ≡ some false
other_typed t value q c = has_type-object t value ∙ rw (q, c) refl

unknown_type :
    (t : String) (value : Fields)
    → (t == "object") ≡ false
    → contains other_types t ≡ false
    → has_type t (dict value) ≡ none
unknown_type t value q c = has_type-object t value ∙ rw (q, c) refl

abbrev chosen : Option Bool → Verdict → Verdict
chosen none rest = refused
chosen (some true) rest = accepted
chosen (some false) rest = rest

chosen_same :
    (o : Option Bool) (rest : Verdict)
    → (elim o [ none ↦ refused | some true ↦ accepted | some false ↦ rest ]) ≡ chosen o rest
chosen_same none rest = refl
chosen_same (some true) rest = refl
chosen_same (some false) rest = refl

any_type-cons :
    (t : String) (ts : List Json) (v : Json) (o : Option Bool)
    → has_type t v ≡ o
    → any_type (str t ∷ ts) v ≡ chosen o (any_type ts v)
unfolding any_type
any_type-cons t ts v o h =
    chosen_same (has_type t v) (any_type ts v) ∙ ap (λ x. chosen x (any_type ts v)) h

any_type_sound :
    (ts : List Json) (value : Fields) → any_type ts (dict value) ≡ accepted → NamesObject ts
unfolding any_type
any_type_sound [] value h = absurd (ground (arith, h))
any_type_sound (str t ∷ ts) value h = elim (Bool-cases (t == "object")) [
  | inl q ↦ inl (ground (arith, q))
  | inr q ↦ elim (Bool-cases (contains other_types t)) [
    | inl c ↦ inr (
      c,
      any_type_sound ts value
          (sym (any_type-cons t ts (dict value) (some false) (other_typed t value q c)) ∙ h),
    )
    | inr c ↦
        absurd (
          ground (arith, sym (any_type-cons t ts (dict value) none (unknown_type t value q c)) ∙ h))
  ]
]
any_type_sound (null ∷ ts) value h = absurd (ground (arith, h))
any_type_sound (bool b ∷ ts) value h = absurd (ground (arith, h))
any_type_sound (int n ∷ ts) value h = absurd (ground (arith, h))
any_type_sound (float m k ∷ ts) value h = absurd (ground (arith, h))
any_type_sound (list xs ∷ ts) value h = absurd (ground (arith, h))
any_type_sound (dict fs ∷ ts) value h = absurd (ground (arith, h))

any_type_complete :
    (ts : List Json) (value : Fields) → NamesObject ts → any_type ts (dict value) ≡ accepted
unfolding any_type
any_type_complete [] value h = absurd (ground (arith, h))
any_type_complete (str t ∷ ts) value (inl same) =
    any_type-cons t ts (dict value) (some true) (object_typed t value (same_text t "object" same))
any_type_complete (str t ∷ ts) value (inr (c, later)) = elim (Bool-cases (t == "object")) [
  | inl q ↦ any_type-cons t ts (dict value) (some true) (object_typed t value q)
  | inr q ↦
      any_type-cons t ts (dict value) (some false) (other_typed t value q c)
      ∙ any_type_complete ts value later
]
any_type_complete (null ∷ ts) value h = absurd (ground (arith, h))
any_type_complete (bool b ∷ ts) value h = absurd (ground (arith, h))
any_type_complete (int n ∷ ts) value h = absurd (ground (arith, h))
any_type_complete (float m k ∷ ts) value h = absurd (ground (arith, h))
any_type_complete (list xs ∷ ts) value h = absurd (ground (arith, h))
any_type_complete (dict fs ∷ ts) value h = absurd (ground (arith, h))

only_texts : (ts : List Json) → any (λ t. not (is_str t)) ts ≡ false → All IsTextValue ts
only_texts [] h = tt
only_texts (str s ∷ ts) h = (tt, only_texts ts (ground (arith, h)))
only_texts (null ∷ ts) h = absurd (ground (arith, h))
only_texts (bool b ∷ ts) h = absurd (ground (arith, h))
only_texts (int n ∷ ts) h = absurd (ground (arith, h))
only_texts (float m k ∷ ts) h = absurd (ground (arith, h))
only_texts (list xs ∷ ts) h = absurd (ground (arith, h))
only_texts (dict fs ∷ ts) h = absurd (ground (arith, h))

no_other : (ts : List Json) → All IsTextValue ts → any (λ t. not (is_str t)) ts ≡ false
no_other [] h = refl
no_other (str s ∷ ts) h = no_other ts h.1
no_other (null ∷ ts) h = absurd (ground (arith, h.0))
no_other (bool b ∷ ts) h = absurd (ground (arith, h.0))
no_other (int n ∷ ts) h = absurd (ground (arith, h.0))
no_other (float m k ∷ ts) h = absurd (ground (arith, h.0))
no_other (list xs ∷ ts) h = absurd (ground (arith, h.0))
no_other (dict fs ∷ ts) h = absurd (ground (arith, h.0))

one_name : (t : String) → NamesObject (str t ∷ []) → t ≡ "object"
one_name t (inl same) = same
one_name t (inr (c, h)) = absurd (ground (arith, h))

pub check_type_sound :
    (o : Option Json) (value : Fields)
    → check_type (not_null o) (dict value) ≡ accepted
    → FitsType o
unfolding check_type
check_type_sound none value h = tt
check_type_sound (some null) value h = tt
check_type_sound (some (str t)) value h = one_name t (any_type_sound (str t ∷ []) value h)
check_type_sound (some (list ts)) value h =
    elim (Bool-cases (any (λ t. not (is_str t)) (item_list ts))) [
      | inl q ↦ absurd (ground (arith, rw q at h))
      | inr q ↦ (only_texts (item_list ts) q, any_type_sound (item_list ts) value (rw q at h))
    ]
check_type_sound (some (bool b)) value h = any_type_sound (bool b ∷ []) value h
check_type_sound (some (int n)) value h = any_type_sound (int n ∷ []) value h
check_type_sound (some (float m k)) value h = any_type_sound (float m k ∷ []) value h
check_type_sound (some (dict fs)) value h = any_type_sound (dict fs ∷ []) value h

pub check_type_complete :
    (o : Option Json) (value : Fields)
    → FitsType o
    → check_type (not_null o) (dict value) ≡ accepted
unfolding check_type
check_type_complete none value h = refl
check_type_complete (some null) value h = refl
check_type_complete (some (str t)) value h = any_type_complete (str t ∷ []) value (inl h)
check_type_complete (some (list ts)) value h =
    rw (no_other (item_list ts) h.0) (any_type_complete (item_list ts) value h.1)
check_type_complete (some (bool b)) value h = absurd (ground (arith, h))
check_type_complete (some (int n)) value h = absurd (ground (arith, h))
check_type_complete (some (float m k)) value h = absurd (ground (arith, h))
check_type_complete (some (dict fs)) value h = absurd (ground (arith, h))
