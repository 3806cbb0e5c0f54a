-- ===== src/Workflow/Snapshot/Active.antt =====
-- The active steps of a snapshot (hasValidStateShape of
-- src/domain/workflows/workflow-run-snapshot.ts).
use nexusos_agentic.Base.{
  ℕ, ◌+◌, ◌≡◌, ◌≤◌, refl, Bool, true, false, some, List, [], ◌∷◌, map, arith, if◌then◌else◌,
}
use nexusos_agentic.Json.{Value}
use nexusos_agentic.Workflow.Records.{UnitDates}
use nexusos_agentic.Workflow.Run.{RunState, created, running, StepState, pending, active, Snapshot}
use nexusos_agentic.Workflow.Snapshot.{project_run_snapshot}
use nexusos_agentic.Workflow.Snapshot.Shape.{
  step_state_eq, every, many_then, one_then, is_end, shape, state_of, has_valid_state_shape,
}
use nexusos_agentic.Workflow.Snapshot.Sound.{project_run_snapshot-IsSnapshot}

abbrev pub active_steps : List StepState → ℕ
active_steps [] = 0
active_steps (t ∷ ts) = (if step_state_eq active t then 1 else 0) + active_steps ts

-- How many steps may be active.
abbrev pub allowed : RunState → ℕ
allowed running = 1
allowed _ = 0

-- States that are read, where at most `n` are active.
abbrev HasAtMost : ℕ → (List StepState → Bool) → Type 0
HasAtMost n rest = (ts : List StepState) → rest ts ≡ true → active_steps ts ≤ n

eq-idle :
    (s t : StepState)
    → step_state_eq active s ≡ false
    → step_state_eq s t ≡ true
    → step_state_eq active t ≡ false
eq-idle pending pending n h = refl
eq-idle StepState.succeeded StepState.succeeded n h = refl
eq-idle StepState.failed StepState.failed n h = refl
eq-idle StepState.cancelled StepState.cancelled n h = refl
eq-idle s active n h = ground arith
eq-idle active t n h = let bad : ⊥ = cc in absurd bad
eq-idle _ _ n h = refl

many_then-HasAtMost :
    (n : ℕ) (s : StepState) (rest : List StepState → Bool)
    → step_state_eq active s ≡ false
    → HasAtMost n rest
    → HasAtMost n (many_then s rest)
unfolding many_then
many_then-HasAtMost n s rest idle k [] h = k [] h
many_then-HasAtMost n s rest idle k (t ∷ ts) h =
    let here = k (t ∷ ts) in
    let later = many_then-HasAtMost n s rest idle k ts in
    let t_idle = eq-idle s t idle in ground arith

one_then-HasAtMost :
    (n : ℕ) (s : StepState) (rest : List StepState → Bool)
    → step_state_eq active s ≡ false
    → HasAtMost n rest
    → HasAtMost n (one_then s rest)
one_then-HasAtMost n s rest idle k [] h = let bad : ⊥ = cc in absurd bad
one_then-HasAtMost n s rest idle k (t ∷ ts) h =
    let later = k ts in let t_idle = eq-idle s t idle in ground arith

active_then-HasAtMost :
    (rest : List StepState → Bool) → HasAtMost 0 rest → HasAtMost 1 (one_then active rest)
active_then-HasAtMost rest k [] h = let bad : ⊥ = cc in absurd bad
active_then-HasAtMost rest k (t ∷ ts) h = let later = k ts in ground arith

every-HasAtMost : (s : StepState) → step_state_eq active s ≡ false → HasAtMost 0 (every s)
every-HasAtMost s idle [] h = omega arith
every-HasAtMost s idle (t ∷ ts) h =
    let later = every-HasAtMost s idle ts in let t_idle = eq-idle s t idle in ground arith

end-HasAtMost : HasAtMost 0 is_end
end-HasAtMost [] h = omega arith
end-HasAtMost (t ∷ ts) h = let bad : ⊥ = cc in absurd bad

-- A reading that ends in states of one kind.
ending-HasAtMost :
    (s t : StepState)
    → step_state_eq active s ≡ false
    → step_state_eq active t ≡ false
    → HasAtMost 0 (many_then StepState.succeeded (one_then s (many_then t is_end)))
ending-HasAtMost s t si ti =
    many_then-HasAtMost 0 StepState.succeeded _ refl
      (one_then-HasAtMost 0 s _ si (many_then-HasAtMost 0 t is_end ti end-HasAtMost))

shape-HasAtMost : (r : RunState) → HasAtMost (allowed r) (shape r)
unfolding shape
shape-HasAtMost created = every-HasAtMost pending refl
shape-HasAtMost RunState.succeeded = every-HasAtMost StepState.succeeded refl
shape-HasAtMost RunState.failed = ending-HasAtMost StepState.failed StepState.cancelled refl refl
shape-HasAtMost RunState.cancelled =
    ending-HasAtMost StepState.cancelled StepState.cancelled refl refl
shape-HasAtMost running = λ ts h.
    let waiting =
      one_then-HasAtMost 0 StepState.succeeded _ refl (ending-HasAtMost pending pending refl refl)
        ts in
    let working =
      many_then-HasAtMost 1 StepState.succeeded _ refl
        (active_then-HasAtMost _ (many_then-HasAtMost 0 pending is_end refl end-HasAtMost)) ts in
    ground arith

-- Of a snapshot that is read, at most one step is active, and none unless the run is running.
pub read_active :
    (d : UnitDates) (v : Value) (s : Snapshot)
    → project_run_snapshot d v ≡ some s
    → active_steps (map state_of s.steps) ≤ allowed s.run_state
unfolding has_valid_state_shape
read_active d v s h =
    let k = project_run_snapshot-IsSnapshot d v s h in
    let shaped = k.shape in shape-HasAtMost s.run_state (map state_of s.steps) (ground arith)
