-- ===== src/Samples.antt =====
-- Test data that the modules of tests share: a small calendar.
use nexusos_agentic.Base.{
  ℕ, String, Option, none, some, List, [], ◌∷◌, ◌==◌, str_eq, eq_iff, ◌≡◌, refl, arith,
  if◌then◌else◌,
}
use nexusos_agentic.Runtime.{Dates, HasRoundTrip}

abbrev pub calendar : List (String × ℕ)
calendar =
    ("2026-01-01T00:00:00.000Z", 10000000000)
    ∷ ("2026-01-01T00:00:30.000Z", 10000030000)
    ∷ ("2026-01-01T00:10:00.000Z", 10000600000)
    ∷ ("2026-01-01T01:00:00.000Z", 10003600000)
    ∷ ("2026-01-02T00:00:00.000Z", 10086400000)
    ∷ ("2026-01-31T00:00:00.000Z", 12592000000)
    ∷ ("2026-02-01T00:00:00.000Z", 12678400000)
    ∷ ("9999-12-31T23:59:59.999Z", 251633699999999)
    ∷ []

unfoldable pub instant_of : List (String × ℕ) → String → Option ℕ
instant_of [] s = none
instant_of ((t, ms) ∷ c) s = if str_eq t s then some ms else instant_of c s

unfoldable pub text_of : List (String × ℕ) → ℕ → Option String
text_of [] ms = none
text_of ((t, n) ∷ c) ms = if n == ms then some t else text_of c ms

abbrev pub dates : Dates
dates = record { parse = instant_of calendar; to_iso = text_of calendar }

abbrev pub midnight : String
midnight = "2026-01-01T00:00:00.000Z"

abbrev pub half_minute : String
half_minute = "2026-01-01T00:00:30.000Z"

abbrev pub ten_past : String
ten_past = "2026-01-01T00:10:00.000Z"

abbrev pub one_hour : String
one_hour = "2026-01-01T01:00:00.000Z"

abbrev pub next_day : String
next_day = "2026-01-02T00:00:00.000Z"

abbrev HasDistinctTexts : List (String × ℕ) → Type 0
HasDistinctTexts [] = Unit
HasDistinctTexts ((t, n) ∷ c) = (instant_of c t ≡ none) × HasDistinctTexts c

instant_of-text_of :
    (c : List (String × ℕ)) (ms : ℕ) (s : String)
    → HasDistinctTexts c
    → text_of c ms ≡ some s
    → instant_of c s ≡ some ms
unfolding instant_of text_of
instant_of-text_of [] ms s h e = cc
instant_of-text_of ((t, n) ∷ c) ms s h e =
    ground (arith, eq_iff t s, eq_iff s s, h.0, instant_of-text_of c ms s h.1)

pub dates-HasRoundTrip : HasRoundTrip dates
unfolding instant_of
dates-HasRoundTrip = record {
  parse-to_iso = λ ms s e.
      instant_of-text_of calendar ms s
        (refl, (refl, (refl, (refl, (refl, (refl, (refl, (refl, tt)))))))) e;
}

abbrev pub thirty_days : String
thirty_days = "2026-01-31T00:00:00.000Z"
