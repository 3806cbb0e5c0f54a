-- ===== src/Text/Timestamp.antt =====
-- The timestamp expressions of the source.
use nexusos_agentic.Base.{ℕ, Bool, ◌||◌, String, List, [], ◌∷◌, ◌++◌, ◌==◌}
use nexusos_agentic.Text.Units.{units}
use nexusos_agentic.Text.Pattern.{Class, digit, times, fits, fits_then}

abbrev pub is_char : ℕ → Class
is_char a c = c == a

-- `\d{4}-\d{2}-\d{2}T\d{2}:\d{2}:\d{2}`.
abbrev pub date_time : List Class
date_time =
    times 4 digit
    ++ (is_char b'-' ∷ times 2 digit)
    ++ (is_char b'-' ∷ times 2 digit)
    ++ (is_char b'T' ∷ times 2 digit)
    ++ (is_char b':' ∷ times 2 digit)
    ++ (is_char b':' ∷ times 2 digit)

-- `/^\d{4}-\d{2}-\d{2}T\d{2}:\d{2}:\d{2}\.\d{3}Z$/`, the shape of `toISOString()`.
unfoldable pub is_timestamp_shape : String → Bool
unfolding fits units
is_timestamp_shape s =
    fits (date_time ++ (is_char b'.' ∷ times 3 digit) ++ is_char b'Z' ∷ []) (units s)

-- `(?:Z|[+-]\d{2}:\d{2})$`.
unfoldable pub is_zone : List ℕ → Bool
unfolding fits
is_zone u =
    fits (is_char b'Z' ∷ []) u
    || fits ((λ c. c == b'+' || c == b'-') ∷ times 2 digit ++ is_char b':' ∷ times 2 digit) u

-- `(?:\.\d{1,3})?(?:Z|[+-]\d{2}:\d{2})$`.
unfoldable pub is_fraction_and_zone : List ℕ → Bool
unfolding is_zone fits_then
is_fraction_and_zone u =
    is_zone u
    || fits_then (is_char b'.' ∷ times 1 digit) is_zone u
    || fits_then (is_char b'.' ∷ times 2 digit) is_zone u
    || fits_then (is_char b'.' ∷ times 3 digit) is_zone u

-- `INSTANT_WITH_TIMEZONE` of src/domain/governance/action-intent.ts.
unfoldable pub is_instant_shape : String → Bool
unfolding fits_then is_fraction_and_zone units
is_instant_shape s = fits_then date_time is_fraction_and_zone (units s)
