-- ===== src/Runners/Claim.antt =====
-- src/domain/runners/claim-admission.ts: whether a runner's claim of a run is admitted, and what
-- the lease records of it.
pub mod Laws
use nexusos_agentic.Base.{
  ℕ, String, Bool, true, false, not, ◌&&◌, ◌||◌, Option, none, some, List, [], ◌∷◌, any, length,
  ltb, leb, str_eq, opt_str_eq, if◌then◌else◌,
}
use nexusos_agentic.Runtime.{Dates}
use nexusos_agentic.Runners.Basics.{
  Capability, PolicySource, LeaseStatus, is_active_lease, later_than,
}
use nexusos_agentic.Runners.Declaration.{
  AdmissionPolicy, CapabilityReport, Declaration, evaluate_declaration_admission,
}

pub data RunStatus : Type 0 where
  queued leased completed canceled : RunStatus

pub record ClaimRun : Type 0 where
  pub id : String
  pub organization_id : String
  pub status : RunStatus
  pub claim_count : ℕ
  pub max_claims : ℕ
  pub deadline_at : String
  pub assigned_runner_id : Option String
  pub required_capability : Option Capability
  pub lease_status : Option LeaseStatus
  pub lease_expires_at : Option String

pub record RunnerLease : Type 0 where
  pub run_id : String
  pub expires_at : String

pub record ClaimSnapshot : Type 0 where
  pub runner_id : String
  pub runner_organization_id : String
  pub runner_active : Bool
  pub now : String
  pub run : Option ClaimRun
  pub runner_leases : List RunnerLease
  pub configured_policy : Option AdmissionPolicy
  pub capability_reports : List CapabilityReport

-- The pins of a capability declaration.
pub record DeclarationPins : Type 0 where
  pub assigned_runner_id : String
  pub policy_source : PolicySource
  pub policy_version : ℕ
  pub freshness_seconds : ℕ
  pub required_capability : Capability
  pub report_id : Option String
  pub report_received_at : Option String

pub data ClaimAdmission : Type 0 where
  unassigned : ClaimAdmission
  assignment_only : String → ClaimAdmission
  capability_declaration : DeclarationPins → ClaimAdmission

-- The denial's code; `runner_rejected` has the status 403 and the others 409.
pub data Denial : Type 0 where
  runner_rejected run_unavailable run_assignment_mismatch runner_conflict runner_busy : Denial
  capability_declaration_mismatch : Denial

unfoldable pub denial_status : Denial → ℕ
denial_status runner_rejected = 403
denial_status _ = 409

pub data Evaluation : Type 0 where
  denied : Denial → Evaluation
  admitted : ClaimAdmission → Evaluation

abbrev pub is_claimable : RunStatus → Bool
is_claimable queued = true
is_claimable leased = true
is_claimable _ = false

abbrev pub is_leased : RunStatus → Bool
is_leased leased = true
is_leased _ = false

-- `Date.parse` of a text that may be null; null is NaN.
abbrev pub parse_opt : Dates → Option String → Option ℕ
parse_opt d none = none
parse_opt d (some s) = d.parse s

unfoldable pub live_current_lease : Dates → ClaimRun → ℕ → Bool
live_current_lease d run now_ms =
    is_leased run.status
    && is_active_lease run.lease_status
    && later_than (parse_opt d run.lease_expires_at) now_ms

-- The run can be claimed at the time `now_ms`.
unfoldable pub is_available : Dates → String → ClaimRun → ℕ → Bool
unfolding live_current_lease
is_available d organization run now_ms =
    str_eq run.organization_id organization
    && is_claimable run.status
    && later_than (d.parse run.deadline_at) now_ms
    && ltb run.claim_count run.max_claims
    && not (live_current_lease d run now_ms)

-- A live lease of the runner on another run.
unfoldable pub is_foreign_lease : Dates → String → ℕ → RunnerLease → Bool
is_foreign_lease d run_id now_ms lease =
    not (str_eq lease.run_id run_id) && later_than (d.parse lease.expires_at) now_ms

-- The run is assigned to another runner.
abbrev pub is_assigned_elsewhere : Option String → String → Bool
is_assigned_elsewhere none runner = false
is_assigned_elsewhere (some r) runner = not (str_eq r runner)

unfoldable pub pins_of : String → Capability → Declaration → DeclarationPins
pins_of runner required declaration = record {
  assigned_runner_id = runner;
  policy_source = declaration.policy_source;
  policy_version = declaration.policy_version;
  freshness_seconds = declaration.freshness_seconds;
  required_capability = required;
  report_id = declaration.report_id;
  report_received_at = declaration.report_received_at;
}

-- The last part of the evaluation: by assignment and by what the run requires.
unfoldable pub admit : Dates → ClaimSnapshot → Option String → Option Capability → Evaluation
unfolding pins_of
admit d s none none = admitted unassigned
admit d s (some runner) none = admitted (assignment_only runner)
admit d s none (some required) = denied capability_declaration_mismatch
admit d s (some runner) (some required) =
    let declaration =
      evaluate_declaration_admission d s.now required s.configured_policy s.capability_reports in
    if not declaration.declaration_satisfied
    then denied capability_declaration_mismatch
    else admitted (capability_declaration (pins_of runner required declaration))

unfoldable pub evaluate_run : Dates → ClaimSnapshot → ClaimRun → ℕ → Evaluation
evaluate_run d s run now_ms =
    if not (is_available d s.runner_organization_id run now_ms)
    then denied run_unavailable
    else if is_assigned_elsewhere run.assigned_runner_id s.runner_id
    then denied run_assignment_mismatch
    else if ltb 1 (length s.runner_leases)
    then denied runner_conflict
    else if any (is_foreign_lease d run.id now_ms) s.runner_leases
    then denied runner_busy
    else admit d s run.assigned_runner_id run.required_capability

-- `evaluateClaimAdmission`: no run, or a time that does not parse, is `run_unavailable`.
unfoldable pub evaluate_with : Dates → ClaimSnapshot → Option ClaimRun → Option ℕ → Evaluation
evaluate_with d s none now_ms = denied run_unavailable
evaluate_with d s (some run) none = denied run_unavailable
evaluate_with d s (some run) (some now_ms) = evaluate_run d s run now_ms

unfoldable pub evaluate_claim_admission : Dates → ClaimSnapshot → Evaluation
unfolding evaluate_with
evaluate_claim_admission d s =
    if not s.runner_active then denied runner_rejected else evaluate_with d s s.run (d.parse s.now)
