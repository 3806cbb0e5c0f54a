-- ===== src/Workflow/Snapshot/Initial.antt =====
-- A run that was initialised is a well-formed snapshot (initializeRun of
-- src/domain/workflows/workflow-run.ts, projectRunSnapshot of
-- src/domain/workflows/workflow-run-snapshot.ts).
use mathlib.Core.Path.{subst}
use nexusos_agentic.Base.{
  suc, ◌≡◌, ◌≤◌, refl, ap, String, true, false, not, ◌||◌, Option, none, some, List, [], ◌∷◌, map,
  length, ltb, ◌==◌, arith, if◌then◌else◌, Result, ok, err, >>=-eq-ok, ok_injective,
}
use nexusos_agentic.Text.{units, lex_lt_irrefl}
use nexusos_agentic.Json.{Units, Value, Items, nil, cons, lookup, item_count, same}
use nexusos_agentic.Workflow.Records.{
  UnitDates, is_canonical, is_binding, is_name, is_hash, member, exact_record, matches, is_object,
  items_of, matches-eq-some, require_then, reject_then,
}
use nexusos_agentic.Workflow.Definition.{
  Unicode, Step, Definition, DefinitionRejection, shape_invalid, step_id_invalid, step_id_duplicate,
  step_kind_invalid, display_name_invalid, input_not_record, spec_version_mismatch,
  workflow_id_invalid, tenant_binding_invalid, step_limit_exceeded, steps_empty, step_keys,
  definition_keys, kind_of, is_display_name, max_steps, spec_version, evaluate, evaluate_steps,
  evaluate_step,
}
use nexusos_agentic.Workflow.Run.{
  Initialized, RunRejection, run_binding_invalid, created_at_invalid, definition_rejected,
  tenant_binding_mismatch, initialize_keys, pending, initial_snapshot, pending_step, declared,
  accepted, initialize_run, snapshot_value,
}
use nexusos_agentic.Workflow.Snapshot.Shape.{has_valid_state_shape, shape, every, state_of}
use nexusos_agentic.Workflow.Snapshot.Laws.{AreSteps, IsSnapshot, project-snapshot_value}
use nexusos_agentic.Workflow.Snapshot.{project_run_snapshot}

-- What the run takes from an evaluated definition.
record IsDefinition (d : Definition) : Type 0 where
  workflow : is_name d.workflow_id ≡ true
  organization : is_binding d.organization_id ≡ true
  project : is_binding d.project_id ≡ true
  some_steps : 1 ≤ length d.steps
  few_steps : length d.steps ≤ 16
  steps : AreSteps [] (map pending_step d.steps)

evaluate_step-IsNew :
    (u : Unicode) (seen : List Units) (raw : Value) (s : Step)
    → evaluate_step u seen raw ≡ ok s
    → (is_name s.step_id ≡ true) × (member s.step_id seen ≡ false)
unfolding evaluate_step
evaluate_step-IsNew u seen raw s h =
    let (fs, _, h1) = require_then shape_invalid (exact_record step_keys raw) _ h in
    let (id, is, h2) =
      require_then step_id_invalid (matches is_name (lookup (units "stepId") fs)) _ h1 in
    let (new, h3) = reject_then (member id seen) step_id_duplicate _ h2 in
    let (kind, _, h4) = require_then step_kind_invalid (kind_of (lookup (units "kind") fs)) _ h3 in
    let (name, _, h5) =
      require_then display_name_invalid
        (matches (is_display_name u) (lookup (units "displayName") fs)) _ h4 in
    let name_is = matches-eq-some is_name _ id is in (cc, cc)

evaluate_steps-AreSteps :
    (u : Unicode) (seen : List Units) (raw : Items) (ss : List Step)
    → evaluate_steps u seen raw ≡ ok ss
    → AreSteps seen (map pending_step ss) × (length ss ≡ item_count raw)
unfolding evaluate_steps
evaluate_steps-AreSteps u seen nil [] h = (tt, refl)
evaluate_steps-AreSteps u seen nil (s ∷ ss) h = let bad : ⊥ = cc in absurd bad
evaluate_steps-AreSteps u seen (cons raw rest) ss h =
    let (s, hs, h1) = >>=-eq-ok (evaluate_step u seen raw) _ h in
    let (more, hm, h2) = >>=-eq-ok (evaluate_steps u (s.step_id ∷ seen) rest) _ h1 in
    let (is, new) = evaluate_step-IsNew u seen raw s hs in
    let (are, count) = evaluate_steps-AreSteps u (s.step_id ∷ seen) rest more hm in
    subst (λ xs. AreSteps seen (map pending_step xs) × (length xs ≡ item_count (cons raw rest)))
      (ok_injective h2) ((is, new, are), ap suc count)

evaluate-IsDefinition :
    (u : Unicode) (v : Value) (d : Definition) → evaluate u v ≡ ok d → IsDefinition d
unfolding evaluate
evaluate-IsDefinition u v d h =
    let (fs, _, h1) =
      require_then (if is_object v then shape_invalid else input_not_record)
        (exact_record definition_keys v) _ h in
    let (version, _, h2) =
      require_then spec_version_mismatch
        (matches (λ s. same s spec_version) (lookup (units "specVersion") fs)) _ h1 in
    let (w, w_is, h3) =
      require_then workflow_id_invalid (matches is_name (lookup (units "workflowId") fs)) _ h2 in
    let (o, o_is, h4) =
      require_then tenant_binding_invalid (matches is_binding (lookup (units "organizationId") fs))
        _ h3 in
    let (p, p_is, h5) =
      require_then tenant_binding_invalid (matches is_binding (lookup (units "projectId") fs)) _
        h4 in
    let (name, _, h6) =
      require_then display_name_invalid
        (matches (is_display_name u) (lookup (units "displayName") fs)) _ h5 in
    let (raw, _, h7) = require_then shape_invalid (items_of (lookup (units "steps") fs)) _ h6 in
    let (few, h8) = reject_then (ltb max_steps (item_count raw)) step_limit_exceeded _ h7 in
    let (nonempty, h9) = reject_then (item_count raw == 0) steps_empty _ h8 in
    let (ss, ss_are, h10) = >>=-eq-ok (evaluate_steps u [] raw) _ h9 in
    let (are, count) = evaluate_steps-AreSteps u [] raw ss ss_are in
    let w_name = matches-eq-some is_name _ w w_is in
    let o_binding = matches-eq-some is_binding _ o o_is in
    let p_binding = matches-eq-some is_binding _ p p_is in
    subst IsDefinition (ok_injective h10) (record {
      workflow = w_name;
      organization = o_binding;
      project = p_binding;
      some_steps = ground arith;
      few_steps = ground arith;
      steps = are;
    })

accepted-eq-some :
    (r : Result DefinitionRejection Definition) (d : Definition) → accepted r ≡ some d → r ≡ ok d
accepted-eq-some (err e) d h = let bad : ⊥ = cc in absurd bad
accepted-eq-some (ok found) d h = cc

declared-IsDefinition :
    (u : Unicode) (o : Option Value) (d : Definition) → declared u o ≡ some d → IsDefinition d
declared-IsDefinition u none d h = let bad : ⊥ = cc in absurd bad
declared-IsDefinition u (some v) d h =
    evaluate-IsDefinition u v d (accepted-eq-some (evaluate u v) d h)

length-map_lem : (ss : List Step) → length (map pending_step ss) ≡ length ss
length-map_lem [] = refl
length-map_lem (s ∷ ss) = ap suc (length-map_lem ss)

every-pending : (ss : List Step) → every pending (map state_of (map pending_step ss)) ≡ true
every-pending [] = refl
every-pending (s ∷ ss) = every-pending ss

initial_snapshot-IsSnapshot :
    (sha256_hex : Units → String) (dates : UnitDates) (id at : Units) (d : Definition)
    → ((t : Units) → is_hash (units (sha256_hex t)) ≡ true)
    → IsDefinition d
    → is_binding id ≡ true
    → is_canonical dates at ≡ true
    → IsSnapshot dates (initial_snapshot sha256_hex id d at)
unfolding initial_snapshot has_valid_state_shape shape
initial_snapshot-IsSnapshot sha256_hex dates id at d hashes k i a = record {
  run = i;
  organization = k.organization;
  project = k.project;
  workflow = k.workflow;
  hash = hashes _;
  some_steps = omega (arith, k.some_steps, length-map_lem d.steps);
  few_steps = omega (arith, k.few_steps, length-map_lem d.steps);
  steps = k.steps;
  few_events = omega arith;
  events = tt;
  version = refl;
  created = a;
  updated = a;
  in_order = lex_lt_irrefl at;
  shape = every-pending d.steps;
}

-- A run that is initialised is stored as a snapshot that is read back as it was, where the hash
-- gives 64 hexadecimal digits.
pub initialize_run-reads_back :
    (sha256_hex : Units → String) (u : Unicode) (d : UnitDates) (input : Value) (r : Initialized)
    → ((t : Units) → is_hash (units (sha256_hex t)) ≡ true)
    → initialize_run sha256_hex u d input ≡ ok r
    → (project_run_snapshot d (snapshot_value r.snapshot) ≡ some r.snapshot)
      × (project_run_snapshot d (snapshot_value r.genesis.snapshot) ≡ some r.snapshot)
unfolding initialize_run
initialize_run-reads_back sha256_hex u d input r hashes h =
    let (fs, _, h1) =
      require_then
        (if is_object input then RunRejection.shape_invalid else RunRejection.input_not_record)
        (exact_record initialize_keys input) _ h in
    let (run, run_is, h2) =
      require_then run_binding_invalid (matches is_binding (lookup (units "runId") fs)) _ h1 in
    let (o, _, h3) =
      require_then RunRejection.tenant_binding_invalid
        (matches is_binding (lookup (units "organizationId") fs)) _ h2 in
    let (p, _, h4) =
      require_then RunRejection.tenant_binding_invalid
        (matches is_binding (lookup (units "projectId") fs)) _ h3 in
    let (at, at_is, h5) =
      require_then created_at_invalid (matches (is_canonical d) (lookup (units "createdAt") fs)) _
        h4 in
    let (w, w_is, h6) =
      require_then definition_rejected (declared u (lookup (units "declaration") fs)) _ h5 in
    let (_, h7) =
      reject_then (not (same w.organization_id o) || not (same w.project_id p))
        tenant_binding_mismatch _ h6 in
    let definition = declared-IsDefinition u _ w w_is in
    let well_formed =
      initial_snapshot-IsSnapshot sha256_hex d run at w hashes definition
        (matches-eq-some is_binding _ run run_is) (matches-eq-some (is_canonical d) _ at at_is) in
    let reads_back = project-snapshot_value d _ well_formed in
    subst
      (λ r.
        (project_run_snapshot d (snapshot_value r.snapshot) ≡ some r.snapshot)
        × (project_run_snapshot d (snapshot_value r.genesis.snapshot) ≡ some r.snapshot))
      (ok_injective h7) (reads_back, reads_back)
