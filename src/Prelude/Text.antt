-- ===== src/Prelude/Text.antt =====
-- Texts of the standard library that the code builds: joining, and `std::to_string`.
use Prim.Native.String.{◌++◌ as string_append}
use rev_dash.Prelude.{
  ℕ, zero, suc, ◌+◌, ◌/◌, ◌%◌, String, List, [], ◌∷◌, ltb, get_or, if◌then◌else◌,
}

infixr 65 ◌<>◌
abbrev pub ◌<>◌ : String → String → String
s <> t = string_append s t

abbrev digit_texts : List String
digit_texts = "0" ∷ "1" ∷ "2" ∷ "3" ∷ "4" ∷ "5" ∷ "6" ∷ "7" ∷ "8" ∷ "9" ∷ []

-- `fuel` bounds the digits; a number has at most as many as its value plus one.
decimal : ℕ → ℕ → String
decimal zero n = ""
decimal (suc fuel) n =
    let more = decimal fuel (n / 10) in
    let last = get_or digit_texts (n % 10) "" in if ltb n 10 then last else more <> last

unfoldable pub to_string : ℕ → String
unfolding decimal
to_string n = decimal (n + 1) n
