-- ===== src/Text/Pattern.antt =====
-- The anchored regular expressions of the source, over code units: a fixed run of character
-- classes, and what may follow it.
use nexusos_agentic.Base.{
  ℕ, zero, suc, Bool, true, false, ◌&&◌, ◌||◌, String, List, [], ◌∷◌, map, leb, ◌==◌,
}
use nexusos_agentic.Text.Units.{units}

abbrev pub Class : Type 0
Class = ℕ → Bool

-- `\d` and `[0-9a-f]`.
abbrev pub digit : Class
digit c = leb b'0' c && leb c b'9'

abbrev pub hex : Class
hex c = digit c || (leb b'a' c && leb c b'f')

abbrev pub times : ℕ → Class → List Class
times zero k = []
times (suc n) k = k ∷ times n k

-- A literal text as a run of classes.
unfoldable pub literal : String → List Class
unfolding units
literal s = map (λ u c. c == u) (units s)

-- `^k₁k₂…$`: every unit fits its class, and nothing is left on either side.
unfoldable pub fits : List Class → List ℕ → Bool
fits [] [] = true
fits [] (c ∷ cs) = false
fits (k ∷ ks) [] = false
fits (k ∷ ks) (c ∷ cs) = k c && fits ks cs

-- `^k₁k₂…` and then the rest of the expression.
unfoldable pub fits_then : List Class → (List ℕ → Bool) → List ℕ → Bool
fits_then [] rest cs = rest cs
fits_then (k ∷ ks) rest [] = false
fits_then (k ∷ ks) rest (c ∷ cs) = k c && fits_then ks rest cs
