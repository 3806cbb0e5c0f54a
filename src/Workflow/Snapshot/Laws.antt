-- ===== src/Workflow/Snapshot/Laws.antt =====
-- What a snapshot that is read back satisfies, and what is read back
-- (src/domain/workflows/workflow-run-snapshot.ts).
use nexusos_agentic.Base.{ℕ, ◌≡◌, ◌≤◌, refl, true, false, some, List, [], ◌∷◌, length, arith}
use nexusos_agentic.Text.{units, push_units, lex_lt}
use nexusos_agentic.Json.{Units, Items, text, number, array, lookup, item_count, same, has}
use nexusos_agentic.Workflow.Records.{
  UnitDates, is_canonical, exact_record, matches, is_binding, is_name, is_hash, is_event_id, member,
  guard,
}
use nexusos_agentic.Workflow.Run.{
  RunState, running, StepState, pending, active, RunStep, AppliedEvent, Snapshot, run_step_value,
  run_step_values, event_value, event_values, run_state_text, step_state_text, snapshot_value,
}
use nexusos_agentic.Workflow.Snapshot.Shape.{has_valid_state_shape}
use nexusos_agentic.Workflow.Snapshot.{
  run_state_of, step_state_of, version_of, exact_array, project_step, project_each_step,
  project_event, project_each_event, project_run_snapshot,
}

-- Steps with names, distinct from one another and from those seen.
abbrev pub AreSteps : List Units → List RunStep → Type 0
AreSteps seen [] = Unit
AreSteps seen (s ∷ ss) =
    (is_name s.step_id ≡ true) × (member s.step_id seen ≡ false) × AreSteps (s.step_id ∷ seen) ss

abbrev pub AreEvents : List Units → List AppliedEvent → Type 0
AreEvents seen [] = Unit
AreEvents seen (e ∷ es) =
    (is_event_id e.event_id ≡ true)
    × (member e.event_id seen ≡ false)
    × (is_hash e.payload_hash ≡ true)
    × AreEvents (e.event_id ∷ seen) es

-- A well-formed snapshot.
pub record IsSnapshot (d : UnitDates) (s : Snapshot) : Type 0 where
  pub run : is_binding s.run_id ≡ true
  pub organization : is_binding s.organization_id ≡ true
  pub project : is_binding s.project_id ≡ true
  pub workflow : is_name s.workflow_id ≡ true
  pub hash : is_hash s.definition_version_hash ≡ true
  pub some_steps : 1 ≤ length s.steps
  pub few_steps : length s.steps ≤ 16
  pub steps : AreSteps [] s.steps
  pub few_events : length s.applied_events ≤ 128
  pub events : AreEvents [] s.applied_events
  pub version : s.run_version ≡ length s.applied_events
  pub created : is_canonical d s.created_at ≡ true
  pub updated : is_canonical d s.updated_at ≡ true
  pub in_order : lex_lt s.updated_at s.created_at ≡ false
  pub shape : has_valid_state_shape s.run_state s.run_version s.steps ≡ true

step_state_of-text : (s : StepState) → step_state_of (some (text (step_state_text s))) ≡ some s
unfolding step_state_of same units push_units
step_state_of-text pending = refl
step_state_of-text active = refl
step_state_of-text StepState.succeeded = refl
step_state_of-text StepState.failed = refl
step_state_of-text StepState.cancelled = refl

run_state_of-text : (s : RunState) → run_state_of (some (text (run_state_text s))) ≡ some s
unfolding run_state_of same units push_units
run_state_of-text RunState.created = refl
run_state_of-text running = refl
run_state_of-text RunState.succeeded = refl
run_state_of-text RunState.failed = refl
run_state_of-text RunState.cancelled = refl

project_step-value :
    (seen : List Units) (s : RunStep)
    → is_name s.step_id ≡ true
    → member s.step_id seen ≡ false
    → project_step seen (run_step_value s) ≡ some s
unfolding project_step guard exact_record matches has lookup same units push_units
project_step-value seen s n m = rw (n, m, step_state_of-text s.state) refl

project_each_step-values :
    (seen : List Units) (ss : List RunStep)
    → AreSteps seen ss
    → project_each_step seen (run_step_values ss) ≡ some ss
unfolding project_each_step
project_each_step-values seen [] h = refl
project_each_step-values seen (s ∷ ss) (n, m, h) =
    rw (project_step-value seen s n m, project_each_step-values (s.step_id ∷ seen) ss h) refl

project_event-value :
    (seen : List Units) (e : AppliedEvent)
    → is_event_id e.event_id ≡ true
    → member e.event_id seen ≡ false
    → is_hash e.payload_hash ≡ true
    → project_event seen (event_value e) ≡ some e
unfolding project_event guard exact_record matches has lookup same units push_units
project_event-value seen e n m p = rw (n, m, p) refl

project_each_event-values :
    (seen : List Units) (es : List AppliedEvent)
    → AreEvents seen es
    → project_each_event seen (event_values es) ≡ some es
unfolding project_each_event
project_each_event-values seen [] h = refl
project_each_event-values seen (e ∷ es) (n, m, p, h) =
    rw (project_event-value seen e n m p, project_each_event-values (e.event_id ∷ seen) es h) refl

item_count-run_step_values : (ss : List RunStep) → item_count (run_step_values ss) ≡ length ss
item_count-run_step_values [] = refl
item_count-run_step_values (s ∷ ss) = omega (arith, item_count-run_step_values ss)

item_count-event_values : (es : List AppliedEvent) → item_count (event_values es) ≡ length es
item_count-event_values [] = refl
item_count-event_values (e ∷ es) = omega (arith, item_count-event_values es)

exact_array-items :
    (low high : ℕ) (xs : Items)
    → low ≤ item_count xs
    → item_count xs ≤ high
    → exact_array low high (some (array xs)) ≡ some xs
unfolding exact_array guard
exact_array-items low high xs h k = ground arith

version_of-number :
    (events n : ℕ) → n ≡ events → events ≤ 128 → version_of events (some (number n)) ≡ some n
unfolding version_of
version_of-number events n h k = ground arith

-- A well-formed snapshot that is written down is read back as it was.
pub project-snapshot_value :
    (d : UnitDates) (s : Snapshot)
    → IsSnapshot d s
    → project_run_snapshot d (snapshot_value s) ≡ some s
unfolding project_run_snapshot guard snapshot_value exact_record has lookup same matches units
    push_units
project-snapshot_value d s k =
    let steps_count = item_count-run_step_values s.steps in
    let events_count = item_count-event_values s.applied_events in
    rw
      (
        exact_array-items 1 16 (run_step_values s.steps) (omega (arith, k.some_steps, steps_count))
            (omega (arith, k.few_steps, steps_count)),
        project_each_step-values [] s.steps k.steps,
        exact_array-items 0 128 (event_values s.applied_events) (omega arith)
            (omega (arith, k.few_events, events_count)),
        project_each_event-values [] s.applied_events k.events,
        version_of-number (length s.applied_events) s.run_version k.version k.few_events,
        run_state_of-text s.run_state,
        k.run,
        k.organization,
        k.project,
        k.workflow,
        k.hash,
        k.created,
        k.updated,
        k.in_order,
        k.shape,
      )
      refl
