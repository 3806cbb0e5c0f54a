-- ===== src/Runners/Policy/Tests.antt =====
-- Changes of a policy at concrete values, with a calendar of two instants.
use mathlib.Core.Path.{subst}
use nexusos_agentic.Base.{
  ℕ, zero, suc, ◌<◌, ◌≡◌, refl, true, Option, none, some, [], ◌∷◌, ◌⊎◌, inl, inr, arith,
  if◌then◌else◌,
}
use nexusos_agentic.Text.{units, push_units, fits, lex_lt}
use nexusos_agentic.Json.{
  Units, Value, text, number, array, object, field, end, nil, cons, has, lookup, same,
}
use nexusos_agentic.Governance.Canonical.Laws.{same_iff}
use nexusos_agentic.Workflow.Records.{UnitDates, is_canonical, member}
use nexusos_agentic.Workflow.Records.Steps.{some_injective}
use nexusos_agentic.Runners.Policy.{parse_admission_policy_put, order_in, next_policy_updated_at}
use nexusos_agentic.Runners.Policy.Updated.{InOrder, next_policy_updated_at-later}

abbrev first : Units
first = units "2026-03-01T12:00:00.000Z"

abbrev second : Units
second = units "2026-03-01T12:00:00.001Z"

abbrev iso : ℕ → Option Units
iso zero = some first
iso (suc zero) = some second
iso _ = none

abbrev dates : UnitDates
dates = record {
  parse = λ s. if same s first then some 0 else if same s second then some 1 else none;
  to_iso = iso;
}

read-cases :
    (s : Units) (m : ℕ)
    → dates.parse s ≡ some m
    → ((s ≡ first) × (m ≡ 0)) ⊎ ((s ≡ second) × (m ≡ 1))
read-cases s m h = ground (arith, same_iff s first, same_iff s second)

first-second : lex_lt first second ≡ true
unfolding lex_lt units push_units
first-second = refl

first-read : dates.parse first ≡ some 0
unfolding same units push_units
first-read = refl

second-read : dates.parse second ≡ some 1
unfolding same units push_units
second-read = refl

written-read : (ms : ℕ) (s : Units) → iso ms ≡ some s → dates.parse s ≡ some ms
written-read zero s h = subst (λ s. dates.parse s ≡ some 0) (some_injective h) first-read
written-read (suc zero) s h = subst (λ s. dates.parse s ≡ some 1) (some_injective h) second-read
written-read (suc (suc n)) s h = let bad : ⊥ = cc in absurd bad

ordered_by :
    (s t : Units) (m n : ℕ)
    → ((s ≡ first) × (m ≡ 0)) ⊎ ((s ≡ second) × (m ≡ 1))
    → ((t ≡ first) × (n ≡ 0)) ⊎ ((t ≡ second) × (n ≡ 1))
    → m < n
    → lex_lt s t ≡ true
ordered_by s t m n (inl (a, e)) (inr (b, f)) lt = rw (a, b) first-second
ordered_by s t m n (inl (a, e)) (inl (b, f)) lt = absurd (omega (arith, e, f))
ordered_by s t m n (inr (a, e)) (inl (b, f)) lt = absurd (omega (arith, e, f))
ordered_by s t m n (inr (a, e)) (inr (b, f)) lt = absurd (omega (arith, e, f))

dates-InOrder : InOrder dates
dates-InOrder = record {
  parsed = written-read;
  ordered = λ s t m n a b hs ht lt. ordered_by s t m n (read-cases s m hs) (read-cases t n ht) lt;
}

second-next : next_policy_updated_at dates first (some first) ≡ some second
unfolding next_policy_updated_at is_canonical fits same units push_units lex_lt
second-next = refl

second-canonical : is_canonical dates second ≡ true
unfolding is_canonical fits same units push_units
second-canonical = refl

next_policy_updated_at-later_example : lex_lt first second ≡ true
next_policy_updated_at-later_example =
    next_policy_updated_at-later dates first first second dates-InOrder second-next second-canonical

abbrev change : Value
change = object (
    field (units "allowedCapabilities")
      (array (cons (text (units "docker")) (cons (text (units "landlock")) nil)))
      (field (units "capabilityFreshnessSeconds") (number 3600) (
        field (units "engineFreshnessSeconds") (number 7200)
          (field (units "expectedVersion") (number 0) end))))

change-parsed :
    parse_admission_policy_put change
    ≡ some (record {
      expected_version = 0;
      capability_freshness_seconds = 3600;
      engine_freshness_seconds = 7200;
      allowed_capabilities = units "landlock" ∷ units "docker" ∷ [];
    })
unfolding parse_admission_policy_put order_in member same has lookup units push_units
change-parsed = refl
