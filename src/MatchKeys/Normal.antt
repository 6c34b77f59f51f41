-- ===== src/MatchKeys/Normal.antt =====
-- What `normalize_match_keys` returns.
use Prim.Native.Char.{Char, code}
use hermes_event_server.Base.{
  ℕ, suc, ◌+◌, ◌≤◌, String, ◌≡◌, refl, ap, subst, ◌∙◌, ◌⊎◌, inl, inr, ◌&&◌, Bool-cases, leb,
  nat_beq, true, false, ◌||◌, some, List, [], ◌∷◌, arith, All, insert_by, sort_by, length,
}
use hermes_event_server.Base.Equality.{◌==◌, contains, string_eq, nat_eq, pair_eq}
use hermes_event_server.Base.Action.{Result-cases, ok}
use hermes_event_server.Base.Text.{text_le, text_length}
use hermes_event_server.MatchKeys.{
  is_key_char, key_length_fits, at_end, match_rest, is_match_key, add_key, collect_keys,
  normalize_match_keys,
}

-- No key twice.
abbrev pub IsDistinct : List String → Type 0
IsDistinct [] = Unit
IsDistinct (k ∷ ks) = (contains ks k ≡ false) × IsDistinct ks

pub contains-add_key :
    (k : String) (ks : List String) (j : String)
    → contains (add_key k ks) j ≡ (k == j) || contains ks j
contains-add_key k ks j = ground arith

contains-insert_by :
    (k : String) (ks : List String) (j : String)
    → contains (insert_by text_le k ks) j ≡ (k == j) || contains ks j
contains-insert_by k [] j = refl
contains-insert_by k (x ∷ xs) j = ground (arith, contains-insert_by k xs j)

pub contains-sort_by :
    (ks : List String) (j : String) → contains (sort_by text_le ks) j ≡ contains ks j
unfolding sort_by
contains-sort_by [] j = refl
contains-sort_by (k ∷ ks) j =
    contains-insert_by k (sort_by text_le ks) j ∙ ap (λ b. (k == j) || b) (contains-sort_by ks j)

insert_by-IsDistinct :
    (k : String) (ks : List String)
    → contains ks k ≡ false
    → IsDistinct ks
    → IsDistinct (insert_by text_le k ks)
insert_by-IsDistinct k [] a h = (refl, tt)
insert_by-IsDistinct k (x ∷ xs) a h =
    ground (arith, insert_by-IsDistinct k xs, contains-insert_by k xs x)

sort_by-IsDistinct : (ks : List String) → IsDistinct ks → IsDistinct (sort_by text_le ks)
unfolding sort_by
sort_by-IsDistinct [] h = tt
sort_by-IsDistinct (k ∷ ks) h =
    insert_by-IsDistinct k (sort_by text_le ks) (contains-sort_by ks k ∙ h.0)
      (sort_by-IsDistinct ks h.1)

length-insert_by :
    (k : String) (ks : List String) → length (insert_by text_le k ks) ≡ suc (length ks)
length-insert_by k [] = refl
length-insert_by k (x ∷ xs) = ground (arith, length-insert_by k xs)

length-sort_by : (ks : List String) → length (sort_by text_le ks) ≡ length ks
unfolding sort_by
length-sort_by [] = refl
length-sort_by (k ∷ ks) = length-insert_by k (sort_by text_le ks) ∙ ap suc (length-sort_by ks)

-- The loop keeps the set without repetitions, and adds exactly the values, all of the right shape.
collect_keys_lem :
    (acc values ks : List String)
    → collect_keys acc values ≡ ok ks
    → IsDistinct acc
    → IsDistinct ks
      × ((j : String) → contains ks j ≡ contains acc j || contains values j)
      × All (λ v. is_match_key v ≡ true) values
unfolding collect_keys
collect_keys_lem acc [] ks h d =
    let e : acc ≡ ks = cc in (subst IsDistinct e d, λ j. rw (← e) (ground arith), tt)
collect_keys_lem acc (v ∷ vs) ks h d =
    let (distinct, same, valid) =
      collect_keys_lem (add_key v acc) vs ks (ground arith) (ground arith) in
    (distinct, λ j. same j ∙ ground (arith, contains-add_key v acc j), (ground arith, valid))

collect_keys_valid :
    (acc values : List String)
    → All (λ v. is_match_key v ≡ true) values
    → (ks : List String) × (collect_keys acc values ≡ ok ks)
unfolding collect_keys
collect_keys_valid acc [] h = (acc, refl)
collect_keys_valid acc (v ∷ vs) h =
    let (ks, e) = collect_keys_valid (add_key v acc) vs h.1 in (ks, rw h.0 e)

-- A letter, a digit, or one of `_.:-`, by its code.
abbrev pub IsWordChar : ℕ → Type 0
IsWordChar c =
    (((65 ≤ c) × (c ≤ 90)) ⊎ ((97 ≤ c) × (c ≤ 122)))
    ⊎ (((48 ≤ c) × (c ≤ 57)) ⊎ ((c ≡ 95) ⊎ ((c ≡ 46) ⊎ ((c ≡ 58) ⊎ (c ≡ 45)))))

abbrev pub IsWord : String → Type 0
IsWord String.[] = Unit
IsWord (String.◌∷◌ c s) = IsWordChar (code c) × IsWord s

-- A text with one character after it.
abbrev pub followed_by : String → Char → String
followed_by String.[] last = String.◌∷◌ last String.[]
followed_by (String.◌∷◌ c s) last = String.◌∷◌ c (followed_by s last)

-- A text of these characters, and after it nothing or one line feed.
abbrev pub IsWordLine : String → String → Type 0
IsWordLine word s = (s ≡ word) ⊎ ((c : Char) × (code c ≡ 10) × (s ≡ followed_by word c))

-- What MATCH_KEY_PATTERN accepts, where `before` characters are behind it.
abbrev pub IsKeyAfter : ℕ → String → Type 0
IsKeyAfter before s =
    (word : String) × IsWordLine word s
    × IsWord word
    × (1 ≤ before + text_length word)
    × (before + text_length word ≤ 64)

is_key_char_word : (c : ℕ) → is_key_char c ≡ true → IsWordChar c
is_key_char_word c h = elim (Bool-cases (leb 65 c && leb c 90)) [
  | inl a ↦ inl (inl (ground (arith, a), ground (arith, a)))
  | inr a ↦ elim (Bool-cases (leb 97 c && leb c 122)) [
    | inl b ↦ inl (inr (ground (arith, b), ground (arith, b)))
    | inr b ↦ elim (Bool-cases (leb 48 c && leb c 57)) [
      | inl d ↦ inr (inl (ground (arith, d), ground (arith, d)))
      | inr d ↦ elim (Bool-cases (nat_beq c 95)) [
        | inl e ↦ inr (inr (inl (ground (arith, e))))
        | inr e ↦ elim (Bool-cases (nat_beq c 46)) [
          | inl f ↦ inr (inr (inr (inl (ground (arith, f)))))
          | inr f ↦ elim (Bool-cases (nat_beq c 58)) [
            | inl g ↦ inr (inr (inr (inr (inl (ground (arith, g))))))
            | inr g ↦ inr (inr (inr (inr (inr (ground (arith, a, b, d, e, f, g, h))))))
          ]
        ]
      ]
    ]
  ]
]

IsWordLine-cons :
    (c : Char) (word s : String)
    → IsWordLine word s
    → IsWordLine (String.◌∷◌ c word) (String.◌∷◌ c s)
IsWordLine-cons c word s (inl e) = inl (ap (λ t. String.◌∷◌ c t) e)
IsWordLine-cons c word s (inr (l, feed, e)) = inr (l, feed, ap (λ t. String.◌∷◌ c t) e)

at_end-empty : (s : String) → at_end s ≡ true → s ≡ String.[]
at_end-empty String.[] h = refl
at_end-empty (String.◌∷◌ c s) h = absurd (ground (arith, h))

match_rest-IsKeyAfter : (n : ℕ) (s : String) → match_rest n s ≡ true → IsKeyAfter n s
unfolding match_rest
match_rest-IsKeyAfter n String.[] h =
    (String.[], inl refl, tt, ground (arith, h), ground (arith, h))
match_rest-IsKeyAfter n (String.◌∷◌ c s) h = elim (Bool-cases (is_key_char (code c))) [
  | inl q ↦
      let (word, line, word_chars, low, high) = match_rest-IsKeyAfter (suc n) s (rw q at h) in
      (
        String.◌∷◌ c word,
        IsWordLine-cons c word s line,
        (is_key_char_word (code c) q, word_chars),
        omega (arith, low),
        omega (arith, high),
      )
  | inr q ↦
      let last : nat_beq (code c) 10 && (at_end s && key_length_fits n) ≡ true = rw q at h in
      (
        String.[],
        inr (
          c,
          ground (arith, last),
          ap (λ t. String.◌∷◌ c t) (at_end-empty s (ground (arith, last))),
        ),
        tt,
        ground (arith, last),
        ground (arith, last),
      )
]

is_match_key-IsKey : (s : String) → is_match_key s ≡ true → IsKeyAfter 0 s
unfolding is_match_key
is_match_key-IsKey s h = match_rest-IsKeyAfter 0 s h

is_match_key-IsKeyAfter :
    (ks : List String) → All (λ v. is_match_key v ≡ true) ks → All (IsKeyAfter 0) ks
is_match_key-IsKeyAfter [] h = tt
is_match_key-IsKeyAfter (k ∷ ks) h = (is_match_key-IsKey k h.0, is_match_key-IsKeyAfter ks h.1)

-- What is returned: the values as a set of at most 32 keys, each listed once.
pub record IsNormal (values ks : List String) : Type 0 where
  pub distinct : IsDistinct ks
  pub bounded : length ks ≤ 32
  pub same : (j : String) → contains ks j ≡ contains values j
  pub valid : All (IsKeyAfter 0) values

-- In a list that `normalize_match_keys` accepts each text is 1 to 64 letters, digits, or `_.:-`, and
-- after them nothing or a line feed; and the result lists exactly the texts of the list, each once,
-- and at most 32 of them.
pub normalize_match_keys-IsNormal :
    (values ks : List String) → normalize_match_keys (some values) ≡ ok ks → IsNormal values ks
unfolding normalize_match_keys
normalize_match_keys-IsNormal values ks h = elim (Result-cases (collect_keys [] values)) [
  | inl (set, e) ↦
      let (distinct, same, valid) = collect_keys_lem [] values set e tt in
      let sorted : sort_by text_le set ≡ ks = ground arith in
      record {
        distinct = subst IsDistinct sorted (sort_by-IsDistinct set distinct);
        bounded = rw (← sorted, length-sort_by set) (ground arith);
        same = λ j. rw (← sorted) (contains-sort_by set j ∙ same j);
        valid = is_match_key-IsKeyAfter values valid;
      }
  | inr (x, e) ↦ absurd (ground arith)
]
