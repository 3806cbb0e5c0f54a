-- ===== src/Runners/EngineClaim.antt =====
-- src/domain/runners/engine-claim-admission.ts: whether a runner's claim of an engine run is
-- admitted, and with which timeout.
pub mod Laws
use nexusos_agentic.Base.{
  ℕ, ◌+◌, ◌-◌, String, Bool, true, false, not, ◌&&◌, ◌||◌, Option, none, some, List, [], ◌∷◌, any,
  length, ltb, leb, is_some, str_eq, if◌then◌else◌, Result, ok, err, ◌>>=◌,
}
use nexusos_agentic.Runtime.{Dates}
use nexusos_agentic.Runners.Basics.{
  Engine, engine_eq, PolicySource, LeaseStatus, is_active_lease, later_than,
}
use nexusos_agentic.Runners.Claim.{RunnerLease, is_foreign_lease}
use nexusos_agentic.Runners.Evidence.{EngineReport}
use nexusos_agentic.Runners.Inventory.{
  EnginePolicy, Eligibility, InventoryError, evaluate_engine_inventory_eligibility,
}

abbrev pub engine_execution_timeout_max_ms : ℕ
engine_execution_timeout_max_ms = 600000

abbrev pub engine_execution_timeout_min_ms : ℕ
engine_execution_timeout_min_ms = 270000

abbrev pub engine_deadline_reserve_ms : ℕ
engine_deadline_reserve_ms = 30000

abbrev pub engine_claim_min_remaining_ms : ℕ
engine_claim_min_remaining_ms = engine_execution_timeout_min_ms + engine_deadline_reserve_ms

pub data EngineRunStatus : Type 0 where
  queued leased canceled expired : EngineRunStatus

pub record EngineClaimRun : Type 0 where
  pub id : String
  pub organization_id : String
  pub engine : Engine
  pub status : EngineRunStatus
  pub claim_count : ℕ
  pub max_claims : ℕ
  pub deadline_at : String
  pub assigned_runner_id : String
  pub cancel_requested_at : Option String
  pub lease_status : Option LeaseStatus
  pub lease_expires_at : Option String

pub record EngineClaimSnapshot : Type 0 where
  pub runner_id : String
  pub runner_organization_id : String
  pub runner_active : Bool
  pub requested_engine : Engine
  pub now : String
  pub run : Option EngineClaimRun
  pub runner_leases : List RunnerLease
  pub configured_policy : Option EnginePolicy
  pub engine_reports : List EngineReport

pub record EngineClaimAdmission : Type 0 where
  pub assigned_runner_id : String
  pub policy_source : PolicySource
  pub policy_version : ℕ
  pub freshness_seconds : ℕ
  pub engine : Engine
  pub report_id : String
  pub report_received_at : String
  pub engine_version : String
  pub timeout_ms : ℕ

-- `runner_rejected` has the status 403 and the others 409.
pub data EngineDenial : Type 0 where
  runner_rejected run_unavailable engine_mismatch run_assignment_mismatch : EngineDenial
  runner_conflict runner_busy engine_deadline_insufficient engine_inventory_mismatch : EngineDenial

pub data EngineEvaluation : Type 0 where
  denied : EngineDenial → EngineEvaluation
  admitted : EngineClaimAdmission → EngineEvaluation

abbrev pub is_claimable : EngineRunStatus → Bool
is_claimable queued = true
is_claimable leased = true
is_claimable _ = false

abbrev pub is_leased : EngineRunStatus → Bool
is_leased leased = true
is_leased _ = false

-- `leaseExpiresAt ? Date.parse(leaseExpiresAt) : NaN`: null and the empty text are NaN.
unfoldable pub parse_present : Dates → Option String → Option ℕ
parse_present d none = none
parse_present d (some s) = if str_eq s "" then none else d.parse s

unfoldable pub is_live : Dates → EngineClaimRun → ℕ → Bool
unfolding parse_present
is_live d run now_ms =
    is_leased run.status
    && is_active_lease run.lease_status
    && later_than (parse_present d run.lease_expires_at) now_ms

-- The run is available at `now_ms`, apart from its deadline.
unfoldable pub is_available : Dates → String → EngineClaimRun → ℕ → Bool
unfolding is_live
is_available d organization run now_ms =
    str_eq run.organization_id organization
    && is_claimable run.status
    && ltb run.claim_count run.max_claims
    && not (is_some run.cancel_requested_at)
    && not (is_live d run now_ms)

-- `Math.min`.
abbrev min : ℕ → ℕ → ℕ
min a b = if leb a b then a else b

unfoldable pub timeout_of : ℕ → ℕ
timeout_of remaining_ms =
    min engine_execution_timeout_max_ms (remaining_ms - engine_deadline_reserve_ms)

-- The admission that an evaluation of the inventory gives.
unfoldable pub admit :
    EngineClaimRun
    → ℕ
    → Bool
    → Option String
    → Option String
    → Option String
    → Eligibility
    → EngineEvaluation
unfolding timeout_of
admit run remaining_ms true (some report_id) (some received_at) (some version) inventory =
    admitted (record {
      assigned_runner_id = run.assigned_runner_id;
      policy_source = inventory.policy_source;
      policy_version = inventory.policy_version;
      freshness_seconds = inventory.freshness_seconds;
      engine = run.engine;
      report_id = report_id;
      report_received_at = received_at;
      engine_version = version;
      timeout_ms = timeout_of remaining_ms;
    })
admit run remaining_ms _ _ _ _ inventory = denied engine_inventory_mismatch

-- The inventory's part: the evaluation may throw.
unfoldable pub evaluate_inventory :
    Dates → EngineClaimSnapshot → EngineClaimRun → ℕ → Result InventoryError EngineEvaluation
unfolding admit
evaluate_inventory d s run remaining_ms = do
  inventory ←
      evaluate_engine_inventory_eligibility d run.engine s.now s.configured_policy s.engine_reports
  ok (
      admit run remaining_ms inventory.eligible inventory.facts.report_id
        inventory.facts.received_at inventory.facts.version inventory)

-- The evaluation of a run whose deadline and whose time now have parsed.
unfoldable pub evaluate_run :
    Dates → EngineClaimSnapshot → EngineClaimRun → ℕ → ℕ → Result InventoryError EngineEvaluation
unfolding is_available evaluate_inventory
evaluate_run d s run now_ms deadline_ms =
    if leb deadline_ms now_ms || not (is_available d s.runner_organization_id run now_ms)
    then ok (denied run_unavailable)
    else if not (str_eq run.assigned_runner_id s.runner_id)
    then ok (denied run_assignment_mismatch)
    else if not (engine_eq s.requested_engine run.engine)
    then ok (denied engine_mismatch)
    else if ltb 1 (length s.runner_leases)
    then ok (denied runner_conflict)
    else if any (is_foreign_lease d run.id now_ms) s.runner_leases
    then ok (denied runner_busy)
    else if ltb (deadline_ms - now_ms) engine_claim_min_remaining_ms
    then ok (denied engine_deadline_insufficient)
    else evaluate_inventory d s run (deadline_ms - now_ms)

-- No run, or a time that does not parse, is `run_unavailable`.
unfoldable pub evaluate_with :
    Dates
    → EngineClaimSnapshot
    → EngineClaimRun
    → Option ℕ
    → Option ℕ
    → Result InventoryError EngineEvaluation
evaluate_with d s run (some now_ms) (some deadline_ms) = evaluate_run d s run now_ms deadline_ms
evaluate_with d s run _ _ = ok (denied run_unavailable)

unfoldable pub evaluate_found :
    Dates → EngineClaimSnapshot → Option EngineClaimRun → Result InventoryError EngineEvaluation
unfolding evaluate_with
evaluate_found d s none = ok (denied run_unavailable)
evaluate_found d s (some run) = evaluate_with d s run (d.parse s.now) (d.parse run.deadline_at)

-- `evaluateEngineClaimAdmission`.
unfoldable pub evaluate_engine_claim_admission :
    Dates → EngineClaimSnapshot → Result InventoryError EngineEvaluation
unfolding evaluate_found
evaluate_engine_claim_admission d s =
    if not s.runner_active then ok (denied runner_rejected) else evaluate_found d s s.run
