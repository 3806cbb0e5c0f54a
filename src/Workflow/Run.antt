-- ===== src/Workflow/Run.antt =====
-- src/domain/workflows/workflow-run.ts and src/contracts/workflow-run.ts: a new run of a workflow.
use nexusos_agentic.Base.{
  ℕ, String, not, ◌||◌, Option, none, some, List, [], ◌∷◌, map, Result, ok, err, ◌>>=◌, ◌>>◌,
  if◌then◌else◌,
}
use nexusos_agentic.Text.{units}
use nexusos_agentic.Json.{
  Units, Value, Items, text, number, array, object, nil, cons, end, field, lookup, same,
}
use nexusos_agentic.Governance.Canonical.{canonical_json}
use nexusos_agentic.Workflow.Records.{
  UnitDates, is_canonical, is_object, exact_record, matches, is_binding, require, reject_if,
}
use nexusos_agentic.Workflow.Definition.{
  Unicode, Step, Definition, DefinitionRejection, evaluate, definition_value,
}

pub data RunState : Type 0 where
  created running succeeded failed cancelled : RunState

pub data StepState : Type 0 where
  pending active succeeded failed cancelled : StepState

pub record RunStep : Type 0 where
  pub step_id : Units
  pub state : StepState

pub record AppliedEvent : Type 0 where
  pub event_id : Units
  pub payload_hash : Units

-- `WorkflowRunSnapshot`; `specVersion` and `stateClaim` are constants.
pub record Snapshot : Type 0 where
  pub run_id : Units
  pub organization_id : Units
  pub project_id : Units
  pub workflow_id : Units
  pub definition_version_hash : Units
  pub run_version : ℕ
  pub run_state : RunState
  pub steps : List RunStep
  pub applied_events : List AppliedEvent
  pub created_at : Units
  pub updated_at : Units

-- `WorkflowRunGenesisRecord`.
pub record Genesis : Type 0 where
  pub sequence : ℕ
  pub snapshot : Snapshot

pub record Initialized : Type 0 where
  pub snapshot : Snapshot
  pub genesis : Genesis

pub data RunRejection : Type 0 where
  input_not_record shape_invalid run_binding_invalid tenant_binding_invalid : RunRejection
  created_at_invalid definition_rejected tenant_binding_mismatch : RunRejection

abbrev pub initialize_keys : List Units
initialize_keys =
    units "runId"
    ∷ units "organizationId"
    ∷ units "projectId"
    ∷ units "declaration"
    ∷ units "createdAt"
    ∷ []

-- Any rejection of the definition rejects the run.
abbrev pub accepted : Result DefinitionRejection Definition → Option Definition
accepted (ok d) = some d
accepted (err e) = none

abbrev pub declared : Unicode → Option Value → Option Definition
declared u none = none
declared u (some v) = accepted (evaluate u v)

abbrev pub pending_step : Step → RunStep
pending_step s = record { step_id = s.step_id; state = pending }

unfoldable pub initial_snapshot : (Units → String) → Units → Definition → Units → Snapshot
initial_snapshot sha256_hex run_id definition created_at = record {
  run_id = run_id;
  organization_id = definition.organization_id;
  project_id = definition.project_id;
  workflow_id = definition.workflow_id;
  definition_version_hash = units (sha256_hex (canonical_json (definition_value definition)));
  run_version = 0;
  run_state = created;
  steps = map pending_step definition.steps;
  applied_events = [];
  created_at = created_at;
  updated_at = created_at;
}

-- `initializeRun`, with the hash of texts, and what the runtime knows of characters and of dates.
unfoldable pub initialize_run :
    (Units → String) → Unicode → UnitDates → Value → Result RunRejection Initialized
unfolding exact_record matches initial_snapshot require reject_if
initialize_run sha256_hex u d input = do
  fs ←
      require (if is_object input then shape_invalid else input_not_record)
        (exact_record initialize_keys input)
  run_id ← require run_binding_invalid (matches is_binding (lookup (units "runId") fs))
  organization_id ←
      require tenant_binding_invalid (matches is_binding (lookup (units "organizationId") fs))
  project_id ← require tenant_binding_invalid (matches is_binding (lookup (units "projectId") fs))
  created_at ← require created_at_invalid (matches (is_canonical d) (lookup (units "createdAt") fs))
  definition ← require definition_rejected (declared u (lookup (units "declaration") fs))
  reject_if
      (not (same definition.organization_id organization_id)
        || not (same definition.project_id project_id))
      tenant_binding_mismatch
  let snapshot = initial_snapshot sha256_hex run_id definition created_at
  ok (record { snapshot = snapshot; genesis = record { sequence = 0; snapshot = snapshot } })

abbrev pub run_spec_version : Units
run_spec_version = units "nexusos.workflow-run.v1"

abbrev pub run_claim : Units
run_claim = units "state_only_no_execution"

abbrev pub run_state_text : RunState → Units
run_state_text created = units "created"
run_state_text running = units "running"
run_state_text RunState.succeeded = units "succeeded"
run_state_text RunState.failed = units "failed"
run_state_text RunState.cancelled = units "cancelled"

abbrev pub step_state_text : StepState → Units
step_state_text pending = units "pending"
step_state_text active = units "active"
step_state_text StepState.succeeded = units "succeeded"
step_state_text StepState.failed = units "failed"
step_state_text StepState.cancelled = units "cancelled"

abbrev pub run_step_value : RunStep → Value
run_step_value s = object (
    field (units "stepId") (text s.step_id)
      (field (units "state") (text (step_state_text s.state)) end))

abbrev pub event_value : AppliedEvent → Value
event_value e = object (
    field (units "eventId") (text e.event_id)
      (field (units "payloadHash") (text e.payload_hash) end))

abbrev pub run_step_values : List RunStep → Items
run_step_values [] = nil
run_step_values (s ∷ ss) = cons (run_step_value s) (run_step_values ss)

abbrev pub event_values : List AppliedEvent → Items
event_values [] = nil
event_values (e ∷ es) = cons (event_value e) (event_values es)

-- A snapshot as the JSON value that is stored.
unfoldable pub snapshot_value : Snapshot → Value
snapshot_value s = object (
    field (units "specVersion") (text run_spec_version) (
      field (units "stateClaim") (text run_claim) (
        field (units "runId") (text s.run_id) (
          field (units "organizationId") (text s.organization_id) (
            field (units "projectId") (text s.project_id) (
              field (units "workflowId") (text s.workflow_id) (
                field (units "definitionVersionHash") (text s.definition_version_hash) (
                  field (units "runVersion") (number s.run_version) (
                    field (units "runState") (text (run_state_text s.run_state)) (
                      field (units "steps") (array (run_step_values s.steps)) (
                        field (units "appliedEvents") (array (event_values s.applied_events)) (
                          field (units "createdAt") (text s.created_at)
                            (field (units "updatedAt") (text s.updated_at) end)))))))))))))
