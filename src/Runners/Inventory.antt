-- ===== src/Runners/Inventory.antt =====
-- src/domain/runners/engine-inventory-eligibility.ts: whether the latest engine report of a runner
-- makes an engine eligible.
pub mod Laws
use nexusos_agentic.Base.{
  ℕ, ◌+◌, ◌*◌, String, Bool, true, false, not, ◌&&◌, ◌||◌, Option, none, some, List, ltb, leb,
  if◌then◌else◌, Result, ok, err, ◌>>=◌,
}
use nexusos_agentic.Runtime.{Dates, max_safe_integer}
use nexusos_agentic.Runners.Basics.{
  Engine, PolicySource, default_policy, configured_policy, is_canonical_timestamp,
  is_engine_report_id,
}
use nexusos_agentic.Runners.Latest.{latest_engine_report}
use nexusos_agentic.Runners.Evidence.{
  EngineReport, DisabledReason, Facts, no_facts, Verdict, judge_evidence, engine_policy_invalid,
  engine_report_absent, engine_report_future, engine_report_stale, engine_inventory_inconsistent,
  eligible_with, disabled,
}

-- `ConfiguredEngineAdmissionPolicySnapshot`.
pub record EnginePolicy : Type 0 where
  pub version : ℕ
  pub engine_freshness_seconds : ℕ
  pub version_recorded : Bool

-- `EngineInventoryEligibilityEvaluation`; `trust` is the constant `hostReported`.
pub record Eligibility : Type 0 where
  pub evaluated_at : String
  pub engine : Engine
  pub policy_source : PolicySource
  pub policy_version : ℕ
  pub freshness_seconds : ℕ
  pub facts : Facts
  pub eligible : Bool
  pub disabled_reason : Option DisabledReason

-- The `TypeError` of a bad snapshot, and the `RangeError` of an instant outside a `Date`.
pub data InventoryError : Type 0 where
  invalid_snapshot invalid_date : InventoryError

-- `Date.parse("9999-12-31T23:59:59.999Z")`.
abbrev pub last_instant : String
last_instant = "9999-12-31T23:59:59.999Z"

abbrev pub exceeds : ℕ → Option ℕ → Bool
exceeds n none = false
exceeds n (some m) = ltb m n

abbrev pub known_of : EngineReport → Option String → Facts
known_of r fresh_until = record no_facts {
  report_id = some r.report_id;
  received_at = some r.received_at;
  fresh_until = fresh_until;
}

-- The age of a report; no text of the instant is a `RangeError`.
unfoldable pub judge_freshness :
    Engine → EngineReport → ℕ → ℕ → ℕ → Option String → Result InventoryError Verdict
judge_freshness requested r received_ms fresh_until_ms evaluated_ms none = err invalid_date
judge_freshness requested r received_ms fresh_until_ms evaluated_ms (some fresh_until) =
    let known = known_of r (some fresh_until) in
    ok (
      if ltb evaluated_ms received_ms
      then disabled engine_report_future known
      else if ltb fresh_until_ms evaluated_ms
      then disabled engine_report_stale known
      else judge_evidence requested known r.body)

-- A report whose times have parsed.
unfoldable pub judge_age : Dates → Engine → ℕ → EngineReport → ℕ → ℕ → Result InventoryError Verdict
unfolding judge_freshness
judge_age d requested seconds r received_ms evaluated_ms =
    let fresh_until_ms = received_ms + seconds * 1000 in
    if exceeds fresh_until_ms (d.parse last_instant)
    then ok (disabled engine_inventory_inconsistent (known_of r none))
    else judge_freshness requested r received_ms fresh_until_ms evaluated_ms
        (d.to_iso fresh_until_ms)

abbrev pub policy_version : Option EnginePolicy → ℕ
policy_version none = 0
policy_version (some p) = p.version

abbrev pub freshness_seconds : Option EnginePolicy → ℕ
freshness_seconds none = 86400
freshness_seconds (some p) = p.engine_freshness_seconds

abbrev pub policy_source : Option EnginePolicy → PolicySource
policy_source none = default_policy
policy_source (some p) = configured_policy

abbrev pub is_version_valid : Option EnginePolicy → Bool
is_version_valid none = true
is_version_valid (some p) = p.version_recorded && leb p.version max_safe_integer && leb 1 p.version

unfoldable pub is_engine_freshness_seconds : ℕ → Bool
is_engine_freshness_seconds n = leb n max_safe_integer && leb 3600 n && leb n 2592000

-- A report whose own texts are canonical; a time now that does not parse has been refused before.
unfoldable pub judge_times :
    Dates → Engine → ℕ → EngineReport → Option ℕ → Option ℕ → Result InventoryError Verdict
judge_times d requested seconds r none o =
    ok (disabled engine_inventory_inconsistent (known_of r none))
judge_times d requested seconds r (some received_ms) none = err invalid_snapshot
judge_times d requested seconds r (some received_ms) (some evaluated_ms) =
    judge_age d requested seconds r received_ms evaluated_ms

-- The latest report, once the policy is valid.
unfoldable pub judge_report :
    Dates → Engine → String → ℕ → Option EngineReport → Result InventoryError Verdict
unfolding judge_times
judge_report d requested now seconds none = ok (disabled engine_report_absent no_facts)
judge_report d requested now seconds (some r) =
    if not (is_engine_report_id r.report_id) || not (is_canonical_timestamp d r.received_at)
    then ok (disabled engine_inventory_inconsistent no_facts)
    else judge_times d requested seconds r (d.parse r.received_at) (d.parse now)

abbrev pub facts_of : Verdict → Facts
facts_of (eligible_with f) = f
facts_of (disabled w f) = f

abbrev pub is_eligible : Verdict → Bool
is_eligible (eligible_with f) = true
is_eligible (disabled w f) = false

abbrev pub reason_of : Verdict → Option DisabledReason
reason_of (eligible_with f) = none
reason_of (disabled w f) = some w

unfoldable pub verdict_of :
    Dates
    → Engine
    → String
    → Option EnginePolicy
    → List EngineReport
    → Result InventoryError Verdict
unfolding judge_report is_engine_freshness_seconds
verdict_of d requested now policy reports =
    if not (is_version_valid policy && is_engine_freshness_seconds (freshness_seconds policy))
    then ok (disabled engine_policy_invalid no_facts)
    else judge_report d requested now (freshness_seconds policy) (latest_engine_report reports)

abbrev pub eligibility_of : Engine → String → Option EnginePolicy → Verdict → Eligibility
eligibility_of requested now policy verdict = record {
  evaluated_at = now;
  engine = requested;
  policy_source = policy_source policy;
  policy_version = policy_version policy;
  freshness_seconds = freshness_seconds policy;
  facts = facts_of verdict;
  eligible = is_eligible verdict;
  disabled_reason = reason_of verdict;
}

unfoldable pub evaluate_engine_inventory_eligibility :
    Dates
    → Engine
    → String
    → Option EnginePolicy
    → List EngineReport
    → Result InventoryError Eligibility
unfolding verdict_of
evaluate_engine_inventory_eligibility d requested now policy reports =
    if not (is_canonical_timestamp d now) then err invalid_snapshot else do
      verdict ← verdict_of d requested now policy reports
      ok (eligibility_of requested now policy verdict)
