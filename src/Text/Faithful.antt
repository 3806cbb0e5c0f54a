-- ===== src/Text/Faithful.antt =====
-- A string is determined by its code units.
use Prim.Native.Char.{char, code, IsScalar, IsLt}
use Prim.Native.Nat.{Ordering, compare}
use text.Mathlib.TextEquality.{Char-path}
use nexusos_agentic.Base.{
  ℕ, ◌≡◌, ◌<◌, ◌⊎◌, inl, inr, refl, sym, ◌≢◌, String, List, [], arith, ltb, Bool-cases,
}
use nexusos_agentic.Text.Units.{push_units, units}

abbrev IsCode : ℕ → Type 0
IsCode n = (n < 0xD800) ⊎ ((0xDFFF < n) × (n < 0x110000))

-- What three comparisons say of a scalar value.
abbrev Above : Ordering → Ordering → Type 0
Above Ordering.lt o = IsLt o
Above _ o = ⊥

abbrev Compared : Ordering → Ordering → Ordering → Type 0
Compared Ordering.lt o p = Unit
Compared _ o p = Above o p

Compared-IsCode :
    (n : ℕ) (o p q : Ordering)
    → compare n 55296 ≡ o
    → compare 57343 n ≡ p
    → compare n 1114112 ≡ q
    → Compared o p q
    → IsCode n
Compared-IsCode n Ordering.lt p q a b c h = inl (ground arith)
Compared-IsCode n Ordering.eq Ordering.lt Ordering.lt a b c h = inr (ground arith)
Compared-IsCode n Ordering.gt Ordering.lt Ordering.lt a b c h = inr (ground arith)
Compared-IsCode n Ordering.eq Ordering.lt Ordering.eq a b c h = absurd h
Compared-IsCode n Ordering.eq Ordering.lt Ordering.gt a b c h = absurd h
Compared-IsCode n Ordering.gt Ordering.lt Ordering.eq a b c h = absurd h
Compared-IsCode n Ordering.gt Ordering.lt Ordering.gt a b c h = absurd h
Compared-IsCode n Ordering.eq Ordering.eq q a b c h = absurd h
Compared-IsCode n Ordering.eq Ordering.gt q a b c h = absurd h
Compared-IsCode n Ordering.gt Ordering.eq q a b c h = absurd h
Compared-IsCode n Ordering.gt Ordering.gt q a b c h = absurd h

-- A character is no surrogate.
not_surrogate : (n : ℕ) → IsScalar n → IsCode n
not_surrogate n p = Compared-IsCode n _ _ _ refl refl refl p

push_units-injective :
    (c d : ℕ) (r s : List ℕ)
    → IsCode c
    → IsCode d
    → push_units c r ≡ push_units d s
    → (c ≡ d) × (r ≡ s)
unfolding push_units
push_units-injective c d r s h k e = elim (Bool-cases (ltb c 0x10000)) [
  | inl small ↦ ground arith
  | inr large ↦ ground arith
]

push_units-nonempty : (c : ℕ) (r : List ℕ) → [] ≢ push_units c r
unfolding push_units
push_units-nonempty c r e = ground arith

pub units-injective : (s t : String) → units s ≡ units t → s ≡ t
unfolding units
units-injective String.[] String.[] e = refl
units-injective String.[] (String.◌∷◌ d t) e = absurd (push_units-nonempty (code d) (units t) e)
units-injective (String.◌∷◌ c s) String.[] e =
    absurd (push_units-nonempty (code c) (units s) (sym e))
units-injective (String.◌∷◌ (char m p) s) (String.◌∷◌ (char n q) t) e =
    let (codes, rest) =
      push_units-injective m n (units s) (units t) (not_surrogate m p) (not_surrogate n q) e in
    cc (Char-path (char m p) (char n q) codes, units-injective s t rest)
