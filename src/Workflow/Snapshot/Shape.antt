-- ===== src/Workflow/Snapshot/Shape.antt =====
-- The states of steps that a state of a run allows (hasValidStateShape of
-- src/domain/workflows/workflow-run-snapshot.ts). The regular expressions of the source are made of
-- whole names of states, and each name begins with a letter of its own, so that they are read here
-- as expressions over lists of states.
use nexusos_agentic.Base.{
  ℕ, Bool, true, false, not, ◌&&◌, ◌||◌, ◌==◌, List, [], ◌∷◌, map, all, if◌then◌else◌,
}
use nexusos_agentic.Workflow.Run.{RunState, created, running, StepState, pending, active, RunStep}

abbrev pub step_state_eq : StepState → StepState → Bool
step_state_eq pending pending = true
step_state_eq active active = true
step_state_eq StepState.succeeded StepState.succeeded = true
step_state_eq StepState.failed StepState.failed = true
step_state_eq StepState.cancelled StepState.cancelled = true
step_state_eq _ _ = false

abbrev pub every : StepState → List StepState → Bool
every s = all (step_state_eq s)

-- `(?:s)*` and then the rest of the expression.
unfoldable pub many_then : StepState → (List StepState → Bool) → List StepState → Bool
many_then s rest [] = rest []
many_then s rest (t ∷ ts) = rest (t ∷ ts) || (step_state_eq s t && many_then s rest ts)

-- `s` and then the rest of the expression.
abbrev pub one_then : StepState → (List StepState → Bool) → List StepState → Bool
one_then s rest [] = false
one_then s rest (t ∷ ts) = step_state_eq s t && rest ts

abbrev pub is_end : List StepState → Bool
is_end [] = true
is_end (t ∷ ts) = false

abbrev pub is_created : RunState → Bool
is_created created = true
is_created _ = false

unfoldable pub shape : RunState → List StepState → Bool
unfolding many_then
shape created = every pending
shape running = λ ts.
    one_then StepState.succeeded
      (many_then StepState.succeeded (one_then pending (many_then pending is_end))) ts
    || many_then StepState.succeeded (one_then active (many_then pending is_end)) ts
shape RunState.succeeded = every StepState.succeeded
shape RunState.failed =
    many_then StepState.succeeded (one_then StepState.failed (many_then StepState.cancelled is_end))
shape RunState.cancelled =
    many_then StepState.succeeded
      (one_then StepState.cancelled (many_then StepState.cancelled is_end))

abbrev pub state_of : RunStep → StepState
state_of s = s.state

unfoldable pub has_valid_state_shape : RunState → ℕ → List RunStep → Bool
unfolding shape
has_valid_state_shape run version steps =
    (if is_created run then version == 0 else not (version == 0)) && shape run (map state_of steps)
