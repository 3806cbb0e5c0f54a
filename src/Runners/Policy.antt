-- ===== src/Runners/Policy.antt =====
-- A change of an organization's admission policy (src/domain/runners/admission-policy.ts).
pub mod Updated
pub mod Tests
use nexusos_agentic.Base.{
  ℕ, zero, suc, ◌+◌, Bool, true, false, not, ◌&&◌, ◌||◌, ◌==◌, Option, none, some, List, [], ◌∷◌,
  leb, ltb, if◌then◌else◌,
}
use nexusos_agentic.Runtime.{max_safe_integer}
use nexusos_agentic.Text.{units, lex_lt}
use nexusos_agentic.Json.{Units, Value, Items, text, number, nil, cons, lookup, item_count, same}
use nexusos_agentic.Json.Read.{◌>>=◌}
use nexusos_agentic.Workflow.Records.{
  UnitDates, is_canonical, exact_record, items_of, member, guard, between,
}
use nexusos_agentic.Runners.Declaration.{
  min_admission_freshness_seconds, max_admission_freshness_seconds,
}
use nexusos_agentic.Runners.Inventory.{is_engine_freshness_seconds}

pub record AdmissionPolicyPut : Type 0 where
  pub expected_version : ℕ
  pub capability_freshness_seconds : ℕ
  pub engine_freshness_seconds : ℕ
  pub allowed_capabilities : List Units

abbrev pub max_admission_policy_version : ℕ
max_admission_policy_version = 2147483646

abbrev pub capability_names : List Units
capability_names =
    units "node_permission_model"
    ∷ units "bubblewrap"
    ∷ units "landlock"
    ∷ units "seccomp"
    ∷ units "user_namespace"
    ∷ units "docker"
    ∷ units "podman"
    ∷ []

abbrev pub put_keys : List Units
put_keys =
    units "allowedCapabilities"
    ∷ units "capabilityFreshnessSeconds"
    ∷ units "engineFreshnessSeconds"
    ∷ units "expectedVersion"
    ∷ []

abbrev pub next_index : Option ℕ → Option ℕ
next_index none = none
next_index (some n) = some (suc n)

-- `capabilityOrder.get(name)`.
unfoldable pub order_in : List Units → Units → Option ℕ
unfolding same
order_in [] s = none
order_in (name ∷ names) s = if same name s then some 0 else next_index (order_in names s)

abbrev pub or_zero : Option ℕ → ℕ
or_zero none = 0
or_zero (some n) = n

abbrev pub is_known : Option ℕ → Bool
is_known none = false
is_known (some n) = true

-- `allowed`, in the order in which the names were added.
unfoldable pub add_each : List Units → Items → Option (List Units)
unfolding order_in member
add_each seen nil = some []
add_each seen (cons (text s) items) = do
  _ ← guard (is_known (order_in capability_names s) && not (member s seen))
  rest ← add_each (s ∷ seen) items
  some (s ∷ rest)
add_each seen (cons _ items) = none

unfoldable pub place_in_order : Units → List Units → List Units
place_in_order s [] = s ∷ []
place_in_order s (t ∷ ts) =
    if leb (or_zero (order_in capability_names s)) (or_zero (order_in capability_names t))
    then s ∷ t ∷ ts
    else t ∷ place_in_order s ts

-- `sort` by the order of the capabilities.
unfoldable pub in_order : List Units → List Units
unfolding place_in_order
in_order [] = []
in_order (s ∷ ss) = place_in_order s (in_order ss)

-- A number that fits a test.
unfoldable pub number_if : (ℕ → Bool) → Option Value → Option ℕ
number_if p (some (number n)) = if p n then some n else none
number_if p _ = none

unfoldable pub parse_admission_policy_put : Value → Option AdmissionPolicyPut
unfolding exact_record number_if guard add_each in_order is_engine_freshness_seconds
parse_admission_policy_put input = do
  fs ← exact_record put_keys input
  version ←
      number_if (λ n. leb n max_admission_policy_version) (lookup (units "expectedVersion") fs)
  capability_seconds ←
      number_if (between min_admission_freshness_seconds max_admission_freshness_seconds)
        (lookup (units "capabilityFreshnessSeconds") fs)
  engine_seconds ←
      number_if is_engine_freshness_seconds (lookup (units "engineFreshnessSeconds") fs)
  items ← items_of (lookup (units "allowedCapabilities") fs)
  _ ← guard (leb (item_count items) 7)
  allowed ← add_each [] items
  some (record {
    expected_version = version;
    capability_freshness_seconds = capability_seconds;
    engine_freshness_seconds = engine_seconds;
    allowed_capabilities = in_order allowed;
  })

-- One millisecond after an instant. A RangeError, which `to_iso` gives `none` for, is out of reach of
-- a year with four digits.
abbrev pub one_later : UnitDates → Option ℕ → Option Units
one_later d none = none
one_later d (some ms) = d.to_iso (ms + 1)

unfoldable pub next_policy_updated_at : UnitDates → Units → Option Units → Option Units
next_policy_updated_at d server_now none =
    if is_canonical d server_now then some server_now else none
next_policy_updated_at d server_now (some previous) =
    if not (is_canonical d server_now) || not (is_canonical d previous)
    then none
    else if lex_lt previous server_now
    then some server_now
    else one_later d (d.parse previous)
