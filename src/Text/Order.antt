-- ===== src/Text/Order.antt =====
-- The order of strings, `a < b` and `a <= b`: by code units, the first difference deciding.
use nexusos_agentic.Base.{
  ℕ, ◌≡◌, refl, Bool, true, false, String, List, [], ◌∷◌, arith, ltb, ◌==◌, if◌then◌else◌,
}
use nexusos_agentic.Text.Units.{units}

unfoldable pub lex_lt : List ℕ → List ℕ → Bool
lex_lt [] [] = false
lex_lt [] (b ∷ bs) = true
lex_lt (a ∷ u) [] = false
lex_lt (a ∷ u) (b ∷ v) = if a == b then lex_lt u v else ltb a b

unfoldable pub str_lt : String → String → Bool
unfolding lex_lt units
str_lt a b = lex_lt (units a) (units b)

-- `a <= b` is `!(b < a)`.
unfoldable pub str_le : String → String → Bool
unfolding str_lt
str_le a b = if str_lt b a then false else true

pub lex_lt_irrefl : (a : List ℕ) → lex_lt a a ≡ false
unfolding lex_lt
lex_lt_irrefl [] = refl
lex_lt_irrefl (x ∷ a) = ground (arith, lex_lt_irrefl a)

pub lex_lt_trans : (a b c : List ℕ) → lex_lt a b ≡ true → lex_lt b c ≡ true → lex_lt a c ≡ true
unfolding lex_lt
lex_lt_trans [] [] c h k = cc
lex_lt_trans [] (y ∷ b) [] h k = cc
lex_lt_trans [] (y ∷ b) (z ∷ c) h k = refl
lex_lt_trans (x ∷ a) [] c h k = cc
lex_lt_trans (x ∷ a) (y ∷ b) [] h k = cc
lex_lt_trans (x ∷ a) (y ∷ b) (z ∷ c) h k = ground (arith, lex_lt_trans a b c)

pub lex_lt_asymm : (a b : List ℕ) → lex_lt a b ≡ true → lex_lt b a ≡ false
unfolding lex_lt
lex_lt_asymm [] [] h = refl
lex_lt_asymm [] (y ∷ b) h = refl
lex_lt_asymm (x ∷ a) [] h = cc
lex_lt_asymm (x ∷ a) (y ∷ b) h = ground (arith, lex_lt_asymm a b)

-- Two texts of which neither is before the other are the same units.
pub lex_lt_total : (a b : List ℕ) → lex_lt a b ≡ false → lex_lt b a ≡ false → a ≡ b
unfolding lex_lt
lex_lt_total [] [] h k = refl
lex_lt_total [] (y ∷ b) h k = cc
lex_lt_total (x ∷ a) [] h k = cc
lex_lt_total (x ∷ a) (y ∷ b) h k = ground (arith, lex_lt_total a b)

pub str_lt_trans : (a b c : String) → str_lt a b ≡ true → str_lt b c ≡ true → str_lt a c ≡ true
unfolding str_lt
str_lt_trans a b c h k = lex_lt_trans (units a) (units b) (units c) h k

pub str_lt_irrefl : (a : String) → str_lt a a ≡ false
unfolding str_lt
str_lt_irrefl a = lex_lt_irrefl (units a)

pub str_lt_asymm : (a b : String) → str_lt a b ≡ true → str_lt b a ≡ false
unfolding str_lt
str_lt_asymm a b h = lex_lt_asymm (units a) (units b) h
