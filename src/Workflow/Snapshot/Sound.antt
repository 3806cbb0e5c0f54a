-- ===== src/Workflow/Snapshot/Sound.antt =====
-- What is read back is well formed (src/domain/workflows/workflow-run-snapshot.ts).
use mathlib.Core.Path.{subst}
use nexusos_agentic.Base.{
  ℕ, ◌≡◌, ◌≤◌, refl, ap, suc, true, false, not, Option, none, some, List, [], ◌∷◌, length, arith,
}
use nexusos_agentic.Text.{units, lex_lt}
use nexusos_agentic.Json.{
  Units, Value, Items, number, text, array, null, bool, object, nil, cons, lookup, item_count, same,
}
use nexusos_agentic.Json.Read.{bind-eq-some}
use nexusos_agentic.Workflow.Records.{
  UnitDates, is_canonical, exact_record, matches, matches-eq-some, is_binding, is_name, is_hash,
  is_event_id, items_of, member, between,
}
use nexusos_agentic.Workflow.Records.Steps.{guard_then, guard_pass, some_injective, bind_then}
use nexusos_agentic.Workflow.Run.{RunStep, AppliedEvent, Snapshot, run_spec_version, run_claim}
use nexusos_agentic.Workflow.Snapshot.Shape.{has_valid_state_shape}
use nexusos_agentic.Workflow.Snapshot.{
  snapshot_keys, run_step_keys, event_keys, max_steps, max_applied_events, run_state_of,
  step_state_of, version_of, exact_array, project_step, project_each_step, project_event,
  project_each_event, project_run_snapshot,
}
use nexusos_agentic.Workflow.Snapshot.Laws.{AreSteps, AreEvents, IsSnapshot}

project_step-IsNew :
    (seen : List Units) (v : Value) (s : RunStep)
    → project_step seen v ≡ some s
    → (is_name s.step_id ≡ true) × (member s.step_id seen ≡ false)
unfolding project_step
project_step-IsNew seen v s h =
    let (fs, _, h1) = bind-eq-some (exact_record run_step_keys v) _ h in
    let (id, is, h2) = bind-eq-some (matches is_name (lookup (units "stepId") fs)) _ h1 in
    let (new, h3) = guard_then (not (member id seen)) _ h2 in
    let (state, _, h4) = bind-eq-some (step_state_of (lookup (units "state") fs)) _ h3 in
    let name = matches-eq-some is_name _ id is in
    subst (λ s. (is_name s.step_id ≡ true) × (member s.step_id seen ≡ false)) (some_injective h4)
      (name, ground arith)

project_event-IsNew :
    (seen : List Units) (v : Value) (e : AppliedEvent)
    → project_event seen v ≡ some e
    → (is_event_id e.event_id ≡ true)
      × (member e.event_id seen ≡ false)
      × (is_hash e.payload_hash ≡ true)
unfolding project_event
project_event-IsNew seen v e h =
    let (fs, _, h1) = bind-eq-some (exact_record event_keys v) _ h in
    let (id, is, h2) = bind-eq-some (matches is_event_id (lookup (units "eventId") fs)) _ h1 in
    let (new, h3) = guard_then (not (member id seen)) _ h2 in
    let (payload, hash, h4) =
      bind-eq-some (matches is_hash (lookup (units "payloadHash") fs)) _ h3 in
    let id_is = matches-eq-some is_event_id _ id is in
    let hash_is = matches-eq-some is_hash _ payload hash in
    subst
      (λ e.
        (is_event_id e.event_id ≡ true)
        × (member e.event_id seen ≡ false)
        × (is_hash e.payload_hash ≡ true))
      (some_injective h4) (id_is, ground arith, hash_is)

project_each_step-AreSteps :
    (seen : List Units) (vs : Items) (ss : List RunStep)
    → project_each_step seen vs ≡ some ss
    → AreSteps seen ss × (length ss ≡ item_count vs)
unfolding project_each_step
project_each_step-AreSteps seen nil ss h =
    subst (λ ss. AreSteps seen ss × (length ss ≡ 0)) (some_injective h) (tt, refl)
project_each_step-AreSteps seen (cons v vs) ss h =
    let (s, hs, h1) = bind-eq-some (project_step seen v) _ h in
    let (more, hm, h2) = bind-eq-some (project_each_step (s.step_id ∷ seen) vs) _ h1 in
    let (is, new) = project_step-IsNew seen v s hs in
    let (are, count) = project_each_step-AreSteps (s.step_id ∷ seen) vs more hm in
    subst (λ ss. AreSteps seen ss × (length ss ≡ suc (item_count vs))) (some_injective h2)
      ((is, new, are), ap suc count)

project_each_event-AreEvents :
    (seen : List Units) (vs : Items) (es : List AppliedEvent)
    → project_each_event seen vs ≡ some es
    → AreEvents seen es × (length es ≡ item_count vs)
unfolding project_each_event
project_each_event-AreEvents seen nil es h =
    subst (λ es. AreEvents seen es × (length es ≡ 0)) (some_injective h) (tt, refl)
project_each_event-AreEvents seen (cons v vs) es h =
    let (e, he, h1) = bind-eq-some (project_event seen v) _ h in
    let (more, hm, h2) = bind-eq-some (project_each_event (e.event_id ∷ seen) vs) _ h1 in
    let (is, new, hash) = project_event-IsNew seen v e he in
    let (are, count) = project_each_event-AreEvents (e.event_id ∷ seen) vs more hm in
    subst (λ es. AreEvents seen es × (length es ≡ suc (item_count vs))) (some_injective h2)
      ((is, new, hash, are), ap suc count)

exact_array-IsWithin :
    (low high : ℕ) (o : Option Value) (xs : Items)
    → exact_array low high o ≡ some xs
    → (low ≤ item_count xs) × (item_count xs ≤ high)
unfolding exact_array
exact_array-IsWithin low high o xs h =
    let (ys, _, h1) = bind-eq-some (items_of o) _ h in
    let (within, h2) = guard_then (between low high (item_count ys)) _ h1 in
    subst (λ xs. (low ≤ item_count xs) × (item_count xs ≤ high)) (some_injective h2)
      (ground arith, ground arith)

version_of-IsCount :
    (events : ℕ) (o : Option Value) (n : ℕ) → version_of events o ≡ some n → n ≡ events
unfolding version_of
version_of-IsCount events (some (number m)) n h = ground arith
version_of-IsCount events none n h = let bad : ⊥ = cc in absurd bad
version_of-IsCount events (some null) n h = let bad : ⊥ = cc in absurd bad
version_of-IsCount events (some (bool b)) n h = let bad : ⊥ = cc in absurd bad
version_of-IsCount events (some (text t)) n h = let bad : ⊥ = cc in absurd bad
version_of-IsCount events (some (array xs)) n h = let bad : ⊥ = cc in absurd bad
version_of-IsCount events (some (object fs)) n h = let bad : ⊥ = cc in absurd bad

-- Every snapshot that is read is well formed.
pub project_run_snapshot-IsSnapshot :
    (d : UnitDates) (v : Value) (s : Snapshot) → project_run_snapshot d v ≡ some s → IsSnapshot d s
unfolding project_run_snapshot
project_run_snapshot-IsSnapshot d v s h = bind_then (exact_record snapshot_keys v) h λ fs x1 h1.
    bind_then (exact_array 1 max_steps (lookup (units "steps") fs)) h1 λ raw within h2.
      bind_then (project_each_step [] raw) h2 λ steps steps_are h3.
        bind_then (exact_array 0 max_applied_events (lookup (units "appliedEvents") fs)) h3
          λ raws at_most h4. bind_then (project_each_event [] raws) h4 λ events events_are h5.
            bind_then (matches (λ s. same s run_spec_version) (lookup (units "specVersion") fs)) h5
              λ x2 x3 h6.
                bind_then (matches (λ s. same s run_claim) (lookup (units "stateClaim") fs)) h6
                  λ x4 x5 h7.
                    bind_then (matches is_binding (lookup (units "runId") fs)) h7 λ run run_is h8.
                      bind_then (matches is_binding (lookup (units "organizationId") fs)) h8
                        λ o o_is h9.
                          bind_then (matches is_binding (lookup (units "projectId") fs)) h9
                            λ p p_is h10.
                              bind_then (matches is_name (lookup (units "workflowId") fs)) h10
                                λ w w_is h11.
                                  bind_then
                                    (matches is_hash (lookup (units "definitionVersionHash") fs))
                                    h11
                                    λ hash hash_is h12.
                                      bind_then
                                        (version_of (length events)
                                          (lookup (units "runVersion") fs))
                                        h12
                                        λ version is_count h13.
                                          bind_then (run_state_of (lookup (units "runState") fs))
                                            h13
                                            λ state x6 h14.
                                              bind_then
                                                (matches (is_canonical d)
                                                  (lookup (units "createdAt") fs))
                                                h14
                                                λ at at_is h15.
                                                  bind_then
                                                    (matches (is_canonical d)
                                                      (lookup (units "updatedAt") fs))
                                                    h15
                                                    λ later later_is h16.
                                                      guard_pass (not (lex_lt later at)) _ h16
                                                        λ ordered h17.
                                                          guard_pass
                                                            (has_valid_state_shape state version
                                                            steps)
                                                            _ h17
                                                            λ shaped h18.
                                                            let (low, high) =
                                                            exact_array-IsWithin 1 16
                                                            (lookup (units "steps") fs) raw
                                                            within in
                                                            let (_, top) =
                                                            exact_array-IsWithin 0 128
                                                            (lookup (units "appliedEvents") fs) raws
                                                            at_most in
                                                            let (are, count) =
                                                            project_each_step-AreSteps [] raw steps
                                                            steps_are in
                                                            let (are_events, events_count) =
                                                            project_each_event-AreEvents [] raws
                                                            events events_are in
                                                            subst (IsSnapshot d)
                                                            (some_injective h18)
                                                            (record {
                                                            run =
                                                            matches-eq-some is_binding _ run run_is;
                                                            organization =
                                                            matches-eq-some is_binding _ o o_is;
                                                            project =
                                                            matches-eq-some is_binding _ p p_is;
                                                            workflow =
                                                            matches-eq-some is_name _ w w_is;
                                                            hash =
                                                            matches-eq-some is_hash _ hash hash_is;
                                                            some_steps = omega (arith, low, count);
                                                            few_steps = omega (arith, high, count);
                                                            steps = are;
                                                            few_events =
                                                            omega (arith, top, events_count);
                                                            events = are_events;
                                                            version =
                                                            version_of-IsCount (length events)
                                                            (lookup (units "runVersion") fs) version
                                                            is_count;
                                                            created =
                                                            matches-eq-some (is_canonical d) _ at
                                                            at_is;
                                                            updated =
                                                            matches-eq-some (is_canonical d) _ later
                                                            later_is;
                                                            in_order = ground arith;
                                                            shape = shaped;
                                                            })
