-- ===== src/Workflow/Snapshot.antt =====
-- src/domain/workflows/workflow-run-snapshot.ts: a stored snapshot, read back.
pub mod Shape
pub mod Laws
pub mod Initial
pub mod Sound
pub mod Active
pub mod Tests
use nexusos_agentic.Base.{
  ℕ, String, Bool, true, false, not, ◌||◌, ◌&&◌, Option, none, some, List, [], ◌∷◌, length, leb,
  ◌==◌, if◌then◌else◌,
}
use nexusos_agentic.Runtime.{max_safe_integer}
use nexusos_agentic.Text.{units, lex_lt}
use nexusos_agentic.Json.{
  Units, Value, Items, Fields, text, number, nil, cons, lookup, item_count, same,
}
use nexusos_agentic.Json.Read.{◌>>=◌}
use nexusos_agentic.Workflow.Records.{
  UnitDates, is_canonical, exact_record, matches, is_binding, is_name, is_hash, is_event_id,
  items_of, member, guard, between,
}
use nexusos_agentic.Workflow.Run.{
  RunState, created, running, StepState, pending, active, RunStep, AppliedEvent, Snapshot,
  run_spec_version, run_claim,
}
use nexusos_agentic.Workflow.Snapshot.Shape.{has_valid_state_shape}

abbrev pub snapshot_keys : List Units
snapshot_keys =
    units "specVersion"
    ∷ units "stateClaim"
    ∷ units "runId"
    ∷ units "organizationId"
    ∷ units "projectId"
    ∷ units "workflowId"
    ∷ units "definitionVersionHash"
    ∷ units "runVersion"
    ∷ units "runState"
    ∷ units "steps"
    ∷ units "appliedEvents"
    ∷ units "createdAt"
    ∷ units "updatedAt"
    ∷ []

abbrev pub run_step_keys : List Units
run_step_keys = units "stepId" ∷ units "state" ∷ []

abbrev pub event_keys : List Units
event_keys = units "eventId" ∷ units "payloadHash" ∷ []

abbrev pub max_steps : ℕ
max_steps = 16

abbrev pub max_applied_events : ℕ
max_applied_events = 128

-- `isOneOf(value, WORKFLOW_RUN_STATES)`.
unfoldable pub run_state_of : Option Value → Option RunState
run_state_of (some (text s)) =
    if same s (units "created")
    then some created
    else if same s (units "running")
    then some running
    else if same s (units "succeeded")
    then some RunState.succeeded
    else if same s (units "failed")
    then some RunState.failed
    else if same s (units "cancelled")
    then some RunState.cancelled
    else none
run_state_of _ = none

unfoldable pub step_state_of : Option Value → Option StepState
step_state_of (some (text s)) =
    if same s (units "pending")
    then some pending
    else if same s (units "active")
    then some active
    else if same s (units "succeeded")
    then some StepState.succeeded
    else if same s (units "failed")
    then some StepState.failed
    else if same s (units "cancelled")
    then some StepState.cancelled
    else none
step_state_of _ = none

-- `isVersion`.
unfoldable pub version_of : ℕ → Option Value → Option ℕ
version_of events (some (number n)) =
    if leb n max_safe_integer && n == events && leb n max_applied_events then some n else none
version_of events _ = none

-- `exactArray`, with its bounds.
unfoldable pub exact_array : ℕ → ℕ → Option Value → Option Items
unfolding guard
exact_array low high o = do xs ← items_of o; _ ← guard (between low high (item_count xs)); some xs

unfoldable pub project_step : List Units → Value → Option RunStep
unfolding exact_record matches member step_state_of guard
project_step seen v = do
  fs ← exact_record run_step_keys v
  step_id ← matches is_name (lookup (units "stepId") fs)
  _ ← guard (not (member step_id seen))
  state ← step_state_of (lookup (units "state") fs)
  some (record { step_id = step_id; state = state })

-- The loop, after the ids that were seen.
unfoldable pub project_each_step : List Units → Items → Option (List RunStep)
unfolding project_step
project_each_step seen nil = some []
project_each_step seen (cons v vs) = do
  step ← project_step seen v
  steps ← project_each_step (step.step_id ∷ seen) vs
  some (step ∷ steps)

unfoldable pub project_event : List Units → Value → Option AppliedEvent
unfolding exact_record matches member guard
project_event seen v = do
  fs ← exact_record event_keys v
  event_id ← matches is_event_id (lookup (units "eventId") fs)
  _ ← guard (not (member event_id seen))
  payload_hash ← matches is_hash (lookup (units "payloadHash") fs)
  some (record { event_id = event_id; payload_hash = payload_hash })

unfoldable pub project_each_event : List Units → Items → Option (List AppliedEvent)
unfolding project_event
project_each_event seen nil = some []
project_each_event seen (cons v vs) = do
  event ← project_event seen v
  events ← project_each_event (event.event_id ∷ seen) vs
  some (event ∷ events)

-- `projectRunSnapshot`.
unfoldable pub project_run_snapshot : UnitDates → Value → Option Snapshot
unfolding exact_record matches exact_array project_each_step project_each_event run_state_of
    version_of guard
project_run_snapshot d input = do
  fs ← exact_record snapshot_keys input
  raw_steps ← exact_array 1 max_steps (lookup (units "steps") fs)
  steps ← project_each_step [] raw_steps
  raw_events ← exact_array 0 max_applied_events (lookup (units "appliedEvents") fs)
  events ← project_each_event [] raw_events
  _ ← matches (λ s. same s run_spec_version) (lookup (units "specVersion") fs)
  _ ← matches (λ s. same s run_claim) (lookup (units "stateClaim") fs)
  run_id ← matches is_binding (lookup (units "runId") fs)
  organization_id ← matches is_binding (lookup (units "organizationId") fs)
  project_id ← matches is_binding (lookup (units "projectId") fs)
  workflow_id ← matches is_name (lookup (units "workflowId") fs)
  hash ← matches is_hash (lookup (units "definitionVersionHash") fs)
  version ← version_of (length events) (lookup (units "runVersion") fs)
  state ← run_state_of (lookup (units "runState") fs)
  created_at ← matches (is_canonical d) (lookup (units "createdAt") fs)
  updated_at ← matches (is_canonical d) (lookup (units "updatedAt") fs)
  _ ← guard (not (lex_lt updated_at created_at))
  _ ← guard (has_valid_state_shape state version steps)
  some (record {
    run_id = run_id;
    organization_id = organization_id;
    project_id = project_id;
    workflow_id = workflow_id;
    definition_version_hash = hash;
    run_version = version;
    run_state = state;
    steps = steps;
    applied_events = events;
    created_at = created_at;
    updated_at = updated_at;
  })
