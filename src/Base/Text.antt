-- ===== src/Base/Text.antt =====
-- Texts as Python sees them: sequences of characters, compared by code point.
use Prim.Native.Nat.{ℕ, zero, suc, Ordering}
use Prim.Native.String
use Prim.Native.String.{String, ◌++◌}
use mathlib.Core.Bool.{Bool, true, false}

-- `len(s)`
abbrev pub text_length : String → ℕ
text_length String.[] = 0
text_length (String.◌∷◌ c s) = suc (text_length s)

-- `s[:n]`
abbrev pub text_take : ℕ → String → String
text_take zero s = String.[]
text_take (suc n) String.[] = String.[]
text_take (suc n) (String.◌∷◌ c s) = String.◌∷◌ c (text_take n s)

-- `s[n:]`
abbrev pub text_drop : ℕ → String → String
text_drop zero s = s
text_drop (suc n) String.[] = String.[]
text_drop (suc n) (String.◌∷◌ c s) = text_drop n s

-- `s <= t`
abbrev pub text_le : String → String → Bool
text_le s t = elim (String.compare s t) [ Ordering.gt ↦ false | _ ↦ true ]
