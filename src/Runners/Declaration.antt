-- ===== src/Runners/Declaration.antt =====
-- Whether a runner's own declaration admits it to a run that needs a capability
-- (isCapabilityReportFresh of src/domain/runners/capability-protocol.ts and
-- evaluateDeclarationAdmission of src/domain/runners/claim-admission.ts).
pub mod Laws
use nexusos_agentic.Base.{
  ℕ, ◌+◌, ◌*◌, String, Bool, true, false, not, ◌&&◌, ◌||◌, Option, none, some, List, ltb, leb,
  is_some, if◌then◌else◌,
}
use nexusos_agentic.Runtime.{Dates, max_safe_integer}
use nexusos_agentic.Runners.Basics.{
  Capability, capabilities, has_capability, PolicySource, default_policy, configured_policy,
  is_canonical_timestamp, later_than,
}
use nexusos_agentic.Runners.Latest.{Report, latest_runner_capability_report}

pub data CapabilityStatus : Type 0 where
  available unavailable unknown : CapabilityStatus

-- `requiredCapabilityStatus` of the report, where it says anything of the capability.
abbrev pub CapabilityReport : Type 0
CapabilityReport = Report (Option CapabilityStatus)

-- `ConfiguredAdmissionPolicySnapshot`.
pub record AdmissionPolicy : Type 0 where
  pub version : ℕ
  pub capability_freshness_seconds : ℕ
  pub allowed_capabilities : List Capability
  pub version_recorded : Bool

abbrev pub min_admission_freshness_seconds : ℕ
min_admission_freshness_seconds = 3600

abbrev pub max_admission_freshness_seconds : ℕ
max_admission_freshness_seconds = 2592000

abbrev pub default_admission_freshness_seconds : ℕ
default_admission_freshness_seconds = 86400

abbrev pub max_capability_freshness_ms : ℕ
max_capability_freshness_ms = 2592000000

unfoldable pub is_within : ℕ → ℕ → Option ℕ → Bool
is_within now_ms max_age_ms none = false
is_within now_ms max_age_ms (some received) =
    leb max_age_ms max_safe_integer
    && leb 1 max_age_ms
    && leb max_age_ms max_capability_freshness_ms
    && leb received now_ms
    && leb now_ms (received + max_age_ms)

unfoldable pub is_capability_report_fresh : Dates → String → ℕ → ℕ → Bool
unfolding is_within
is_capability_report_fresh d received_at now_ms max_age_ms =
    is_canonical_timestamp d received_at && is_within now_ms max_age_ms (d.parse received_at)

pub data FreshnessState : Type 0 where
  fresh stale future absent not_evaluated : FreshnessState

pub data Reason : Type 0 where
  satisfied invalid_policy capability_disallowed declaration_absent declaration_future : Reason
  capability_absent capability_unavailable capability_unknown declaration_stale : Reason

pub record Declaration : Type 0 where
  pub required_capability : Capability
  pub policy_source : PolicySource
  pub policy_version : ℕ
  pub freshness_seconds : ℕ
  pub allowed : Bool
  pub declared_status : Option CapabilityStatus
  pub freshness_state : FreshnessState
  pub report_id : Option String
  pub report_received_at : Option String
  pub declaration_satisfied : Bool
  pub reason : Reason

-- The policy's values, or the default policy's.
abbrev pub policy_source : Option AdmissionPolicy → PolicySource
policy_source none = default_policy
policy_source (some p) = configured_policy

abbrev pub policy_version : Option AdmissionPolicy → ℕ
policy_version none = 0
policy_version (some p) = p.version

abbrev pub freshness_seconds : Option AdmissionPolicy → ℕ
freshness_seconds none = default_admission_freshness_seconds
freshness_seconds (some p) = p.capability_freshness_seconds

abbrev pub allowed_capabilities : Option AdmissionPolicy → List Capability
allowed_capabilities none = capabilities
allowed_capabilities (some p) = p.allowed_capabilities

unfoldable pub is_version_valid : Option AdmissionPolicy → Bool
is_version_valid none = true
is_version_valid (some p) = p.version_recorded && leb p.version max_safe_integer && leb 1 p.version

unfoldable pub is_policy_valid : Option AdmissionPolicy → Bool
unfolding is_version_valid
is_policy_valid policy =
    is_version_valid policy
    && leb (freshness_seconds policy) max_safe_integer
    && leb min_admission_freshness_seconds (freshness_seconds policy)
    && leb (freshness_seconds policy) max_admission_freshness_seconds

-- `freshnessState` where the policy is valid and the time is finite.
unfoldable pub freshness_of : Dates → ℕ → ℕ → Option CapabilityReport → FreshnessState
freshness_of d now_ms seconds none = absent
freshness_of d now_ms seconds (some r) =
    if later_than (d.parse r.received_at) now_ms
    then future
    else if is_capability_report_fresh d r.received_at now_ms (seconds * 1000)
    then fresh
    else stale

unfoldable pub freshness_state :
    Dates → Option AdmissionPolicy → Option ℕ → Option CapabilityReport → FreshnessState
unfolding freshness_of
freshness_state d policy none report = not_evaluated
freshness_state d policy (some now_ms) report =
    if is_policy_valid policy
    then freshness_of d now_ms (freshness_seconds policy) report
    else not_evaluated

abbrev pub is_fresh : FreshnessState → Bool
is_fresh fresh = true
is_fresh _ = false

abbrev pub is_future : FreshnessState → Bool
is_future future = true
is_future _ = false

-- The reason of a report's status, and then of its age.
unfoldable pub reason_of_report : FreshnessState → Option CapabilityStatus → Reason
reason_of_report age none = capability_absent
reason_of_report age (some unavailable) = capability_unavailable
reason_of_report age (some unknown) = capability_unknown
reason_of_report age (some available) =
    if is_future age
    then declaration_future
    else if not (is_fresh age)
    then declaration_stale
    else satisfied

unfoldable pub reason_of : Bool → Bool → FreshnessState → Option CapabilityReport → Reason
unfolding reason_of_report
reason_of valid allowed age report =
    if not valid
    then invalid_policy
    else if not allowed
    then capability_disallowed
    else elim report [ none ↦ declaration_absent | some r ↦ reason_of_report age r.body ]

abbrev pub is_satisfied : Reason → Bool
is_satisfied satisfied = true
is_satisfied _ = false

abbrev pub status_of : Option CapabilityReport → Option CapabilityStatus
status_of none = none
status_of (some r) = r.body

abbrev pub id_of : Option CapabilityReport → Option String
id_of none = none
id_of (some r) = some r.report_id

abbrev pub received_of : Option CapabilityReport → Option String
received_of none = none
received_of (some r) = some r.received_at

-- `evaluateDeclarationAdmission`.
unfoldable pub evaluate_declaration_admission :
    Dates → String → Capability → Option AdmissionPolicy → List CapabilityReport → Declaration
unfolding freshness_state reason_of
evaluate_declaration_admission d now required policy reports =
    let now_ms = d.parse now in
    let report = latest_runner_capability_report d reports in
    let age = freshness_state d policy now_ms report in
    let allowed = has_capability (allowed_capabilities policy) required in
    let reason = reason_of (is_policy_valid policy && is_some now_ms) allowed age report in
    record {
      required_capability = required;
      policy_source = policy_source policy;
      policy_version = policy_version policy;
      freshness_seconds = freshness_seconds policy;
      allowed = allowed;
      declared_status = status_of report;
      freshness_state = age;
      report_id = id_of report;
      report_received_at = received_of report;
      declaration_satisfied = is_satisfied reason;
      reason = reason;
    }
