-- ===== src/Workflow/Snapshot/Tests.antt =====
-- A run of a workflow of two steps, with a small calendar and a hash that is the same for every text.
use nexusos_agentic.Base.{
  ◌≡◌, ◌≤◌, refl, String, true, none, some, [], ◌∷◌, map, leb, ◌==◌, arith, if◌then◌else◌, ok,
}
use nexusos_agentic.Text.{units, push_units, fits, lex_lt}
use nexusos_agentic.Json.{
  Units, Value, text, array, object, nil, cons, field, end, has, lookup, same,
}
use nexusos_agentic.Workflow.Records.{
  UnitDates, is_canonical, is_binding, is_name, is_hash, is_event_id, member,
}
use nexusos_agentic.Workflow.Definition.{Unicode, evaluate, is_display_name}
use nexusos_agentic.Workflow.Run.{
  Snapshot, RunStep, created, running, active, pending, StepState, initialize_run, snapshot_value,
}
use nexusos_agentic.Workflow.Snapshot.{project_run_snapshot}
use nexusos_agentic.Workflow.Snapshot.Shape.{has_valid_state_shape, state_of}
use nexusos_agentic.Workflow.Snapshot.Laws.{IsSnapshot, project-snapshot_value}
use nexusos_agentic.Workflow.Snapshot.Initial.{initialize_run-reads_back}
use nexusos_agentic.Workflow.Snapshot.Sound.{project_run_snapshot-IsSnapshot}
use nexusos_agentic.Workflow.Snapshot.Active.{active_steps, allowed, read_active}

abbrev morning : Units
morning = units "2026-03-01T09:00:00.000Z"

-- A calendar of one instant.
abbrev dates : UnitDates
dates = record { parse = λ s. if same s morning then some 7 else none; to_iso = λ n. some morning }

-- Spaces are the only white space, and controls the only unsafe characters.
abbrev characters : Unicode
characters = record { is_space = λ c. c == 32; is_unsafe = λ c. leb c 31 }

abbrev zeros : String
zeros = "0000000000000000000000000000000000000000000000000000000000000000"

abbrev constant_hash : Units → String
constant_hash t = zeros

zeros-IsHash : (t : Units) → is_hash (units (constant_hash t)) ≡ true
unfolding is_hash fits units push_units
zeros-IsHash t = refl

abbrev step_of : String → String → String → Value
step_of id kind name = object (
    field (units "stepId") (text (units id)) (
      field (units "kind") (text (units kind))
        (field (units "displayName") (text (units name)) end)))

abbrev declaration : Value
declaration = object (
    field (units "specVersion") (text (units "nexusos.workflow-definition.v1")) (
      field (units "workflowId") (text (units "release_flow")) (
        field (units "organizationId") (text (units "org-1")) (
          field (units "projectId") (text (units "p-1")) (
            field (units "displayName") (text (units "Release flow")) (
              field (units "steps")
                (array (
                  cons (step_of "build_it" "agent_task" "Build")
                    (cons (step_of "approve_it" "human_task" "Approve") nil)))
                end))))))

abbrev request : Value
request = object (
    field (units "runId") (text (units "run-1")) (
      field (units "organizationId") (text (units "org-1")) (
        field (units "projectId") (text (units "p-1")) (
          field (units "declaration") declaration (field (units "createdAt") (text morning) end)))))

abbrev step_in : String → StepState → RunStep
step_in id state = record { step_id = units id; state = state }

abbrev fresh : Snapshot
fresh = record {
  run_id = units "run-1";
  organization_id = units "org-1";
  project_id = units "p-1";
  workflow_id = units "release_flow";
  definition_version_hash = units zeros;
  run_version = 0;
  run_state = created;
  steps = step_in "build_it" pending ∷ step_in "approve_it" pending ∷ [];
  applied_events = [];
  created_at = morning;
  updated_at = morning;
}

-- The run after two events, with its second step at work.
abbrev working : Snapshot
working = record {
  run_id = units "run-1";
  organization_id = units "org-1";
  project_id = units "p-1";
  workflow_id = units "release_flow";
  definition_version_hash = units zeros;
  run_version = 2;
  run_state = running;
  steps = step_in "build_it" StepState.succeeded ∷ step_in "approve_it" active ∷ [];
  applied_events =
      record { event_id = units "e-1"; payload_hash = units zeros }
      ∷ record { event_id = units "e-2"; payload_hash = units zeros }
      ∷ [];
  created_at = morning;
  updated_at = morning;
}

request-initialized :
    initialize_run constant_hash characters dates request
    ≡ ok (record { snapshot = fresh; genesis = record { sequence = 0; snapshot = fresh } })
unfolding initialize_run evaluate is_binding is_canonical is_name is_display_name fits same lookup
    has units push_units
request-initialized = refl

working-read : project_run_snapshot dates (snapshot_value working) ≡ some working
unfolding project_run_snapshot snapshot_value is_binding is_canonical is_name is_hash is_event_id
    fits same lookup has units push_units lex_lt has_valid_state_shape
working-read = refl

working-IsSnapshot : IsSnapshot dates working
unfolding is_binding is_canonical is_name is_hash is_event_id member fits same units push_units
    lex_lt has_valid_state_shape
working-IsSnapshot = record {
  run = refl;
  organization = refl;
  project = refl;
  workflow = refl;
  hash = refl;
  some_steps = omega arith;
  few_steps = omega arith;
  steps = (refl, refl, (refl, refl, tt));
  few_events = omega arith;
  events = (refl, refl, refl, (refl, refl, refl, tt));
  version = refl;
  created = refl;
  updated = refl;
  in_order = refl;
  shape = refl;
}

project-snapshot_value_example : project_run_snapshot dates (snapshot_value working) ≡ some working
project-snapshot_value_example = project-snapshot_value dates working working-IsSnapshot

initialize_run-reads_back_example :
    (project_run_snapshot dates (snapshot_value fresh) ≡ some fresh)
    × (project_run_snapshot dates (snapshot_value fresh) ≡ some fresh)
initialize_run-reads_back_example =
    initialize_run-reads_back constant_hash characters dates request
      (record { snapshot = fresh; genesis = record { sequence = 0; snapshot = fresh } })
      zeros-IsHash request-initialized

project_run_snapshot-IsSnapshot_example : IsSnapshot dates working
project_run_snapshot-IsSnapshot_example =
    project_run_snapshot-IsSnapshot dates (snapshot_value working) working working-read

read_active_example : active_steps (map state_of working.steps) ≤ allowed working.run_state
read_active_example = read_active dates (snapshot_value working) working working-read
