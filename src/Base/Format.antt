-- ===== src/Base/Format.antt =====
-- Texts made from parts: f-strings, `str` of an integer, and a test of how a text begins.
use Prim.Native.String
use Prim.Native.Char.{code}
use hermes_event_server.Base.{
  ℕ, zero, suc, ◌+◌, ◌/◌, ◌%◌, String, Bool, true, false, ◌&&◌, List, [], ◌∷◌, ltb, nat_beq,
}
use hermes_event_server.Base.Int.{ℤ, pos, negsuc}

abbrev pub concat : List String → String
concat [] = ""
concat (s ∷ ss) = String.◌++◌ s (concat ss)

-- `s.startswith(t)`
abbrev pub starts_with : String → String → Bool
starts_with t String.[] = elim t [ String.[] ↦ true | _ ↦ false ]
starts_with String.[] (String.◌∷◌ d s) = true
starts_with (String.◌∷◌ c t) (String.◌∷◌ d s) = nat_beq (code c) (code d) && starts_with t s

digit : ℕ → String
digit d = String.slice "0123456789" d (d + 1)

-- `str(n)` for a natural number, which has at most `fuel` digits.
digits_of : ℕ → ℕ → String
digits_of zero n = ""
digits_of (suc fuel) n = elim (ltb n 10) [
  | true ↦ digit n
  | false ↦ String.◌++◌ (digits_of fuel (n / 10)) (digit (n % 10))
]

unfoldable pub decimal : ℕ → String
unfolding digits_of digit
decimal n = digits_of (suc n) n

-- `str(n)`
unfoldable pub decimal_ℤ : ℤ → String
decimal_ℤ (pos n) = decimal n
decimal_ℤ (negsuc n) = String.◌++◌ "-" (decimal (suc n))
