-- ===== src/Text/Units.antt =====
-- The UTF-16 code units of a string.
use Prim.Native.Char.{code}
use nexusos_agentic.Base.{ℕ, ◌+◌, ◌-◌, ◌/◌, ◌%◌, String, List, [], ◌∷◌, length, ltb, if◌then◌else◌}

-- A code point from 0x10000 on is a surrogate pair, and any other is one unit.
unfoldable pub push_units : ℕ → List ℕ → List ℕ
push_units c rest =
    if ltb c 0x10000
    then c ∷ rest
    else (0xD800 + (c - 0x10000) / 0x400) ∷ (0xDC00 + (c - 0x10000) % 0x400) ∷ rest

unfoldable pub units : String → List ℕ
unfolding push_units
units String.[] = []
units (String.◌∷◌ c s) = push_units (code c) (units s)

-- `s.length`.
unfoldable pub str_length : String → ℕ
unfolding units
str_length s = length (units s)
