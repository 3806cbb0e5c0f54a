-- ===== src/Runtime.antt =====
-- What the JavaScript runtime does for the source, taken as arguments: dates and hashes.
use nexusos_agentic.Base.{
  ℕ, ◌-◌, ◌≡◌, String, Bool, false, Option, none, some, str_eq, ltb, if◌then◌else◌,
}

-- An instant is its distance in milliseconds from the earliest one that a JavaScript `Date` holds
-- (8,640,000,000,000,000 ms before 1970), so that every finite `Date.parse` is a natural number.
-- The source only compares instants and moves them by constants.
pub record Dates : Type 0 where
  -- `Date.parse(s)`; `none` is NaN.
  pub parse : String → Option ℕ
  -- `new Date(ms).toISOString()`; `none` is the RangeError of an invalid date.
  pub to_iso : ℕ → Option String

-- `Number.MAX_SAFE_INTEGER`, the bound of `Number.isSafeInteger`.
abbrev pub max_safe_integer : ℕ
max_safe_integer = 9007199254740991

-- `Number.isFinite(Date.parse(v)) && new Date(Date.parse(v)).toISOString() === v`.
unfoldable pub iso_round_trip : Dates → String → Bool
iso_round_trip d v = elim (d.parse v) [
  | none ↦ false
  | some ms ↦ elim (d.to_iso ms) [ none ↦ false | some s ↦ str_eq s v ]
]

-- `new Date(ms - span).toISOString()`.
unfoldable pub iso_before : Dates → ℕ → ℕ → Option String
iso_before d ms span = if ltb ms span then none else d.to_iso (ms - span)

-- What the source relies on: the text of an instant is read back as that instant.
pub record HasRoundTrip (d : Dates) : Type 0 where
  pub parse-to_iso : (ms : ℕ) (s : String) → d.to_iso ms ≡ some s → d.parse s ≡ some ms
