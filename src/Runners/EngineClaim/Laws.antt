-- ===== src/Runners/EngineClaim/Laws.antt =====
-- What an admitted claim of an engine run guarantees (evaluateEngineClaimAdmission of
-- src/domain/runners/engine-claim-admission.ts).
use mathlib.Core.Path.{subst}
use nexusos_agentic.Base.{
  sym, ◌∙◌, ℕ, ◌≡◌, ◌≤◌, ◌<◌, ◌⊎◌, ◌+◌, ◌-◌, refl, inl, inr, String, Bool, true, false, not, ◌||◌,
  Option, none, some, arith, any, length, ltb, leb, eq_iff, Option-cases, if◌then◌else◌, Result, ok,
  >>=-eq-ok, All, str_eq,
}
use nexusos_agentic.Runtime.{Dates}
use nexusos_agentic.Runners.Basics.{engine_eq}
use nexusos_agentic.Runners.Claim.{is_foreign_lease}
use nexusos_agentic.Runners.Claim.Laws.{IsOver, no_foreign_iff}
use nexusos_agentic.Runners.Inventory.{
  Eligibility, InventoryError, evaluate_engine_inventory_eligibility,
}
use nexusos_agentic.Runners.EngineClaim.{
  EngineClaimRun, EngineClaimSnapshot, EngineClaimAdmission, EngineDenial, queued, leased,
  EngineEvaluation, denied, admitted, run_unavailable, run_assignment_mismatch, engine_mismatch,
  runner_conflict, runner_busy, engine_deadline_insufficient, runner_rejected, is_live,
  is_available, timeout_of, admit, evaluate_inventory, evaluate_run, evaluate_with, evaluate_found,
  evaluate_engine_claim_admission,
}

-- The run can be claimed by this runner at `now_ms`.
pub record IsClaimable (d : Dates) (s : EngineClaimSnapshot) (run : EngineClaimRun) (now_ms : ℕ)
    : Type 0 where
  pub same_organization : run.organization_id ≡ s.runner_organization_id
  pub is_open : (run.status ≡ queued) ⊎ (run.status ≡ leased)
  pub claims_left : run.claim_count < run.max_claims
  pub not_canceled : run.cancel_requested_at ≡ none
  pub not_held : is_live d run now_ms ≡ false
  pub assigned : run.assigned_runner_id ≡ s.runner_id
  pub same_engine : engine_eq s.requested_engine run.engine ≡ true
  pub one_lease : length s.runner_leases ≤ 1
  pub others_over : All (IsOver d run.id now_ms) s.runner_leases

-- The engine can run for the timeout and leave the reserve of half a minute before the deadline.
pub record HasTime (now_ms deadline_ms timeout_ms : ℕ) : Type 0 where
  pub at_least : 270000 ≤ timeout_ms
  pub at_most : timeout_ms ≤ 600000
  pub in_time : now_ms + timeout_ms + 30000 ≤ deadline_ms

-- The admission is that of an eligible evaluation of the runner's inventory.
pub record IsOfInventory (d : Dates) (s : EngineClaimSnapshot) (run : EngineClaimRun)
    (a : EngineClaimAdmission) : Type 0 where
  pub inventory : Eligibility
  pub evaluated :
      evaluate_engine_inventory_eligibility d run.engine s.now s.configured_policy s.engine_reports
      ≡ ok inventory
  pub is_eligible : inventory.eligible ≡ true
  pub engine : a.engine ≡ run.engine
  pub report_id : inventory.facts.report_id ≡ some a.report_id
  pub received_at : inventory.facts.received_at ≡ some a.report_received_at
  pub version : inventory.facts.version ≡ some a.engine_version

pub record IsSound (d : Dates) (s : EngineClaimSnapshot) (a : EngineClaimAdmission) : Type 0 where
  pub run : EngineClaimRun
  pub now_ms : ℕ
  pub deadline_ms : ℕ
  pub runner_active : s.runner_active ≡ true
  pub found : s.run ≡ some run
  pub now_parses : d.parse s.now ≡ some now_ms
  pub deadline_parses : d.parse run.deadline_at ≡ some deadline_ms
  pub assigned_to : a.assigned_runner_id ≡ s.runner_id
  pub claimable : IsClaimable d s run now_ms
  pub time : HasTime now_ms deadline_ms a.timeout_ms
  pub of_inventory : IsOfInventory d s run a

abbrev Evaluated : Type 0
Evaluated = Result InventoryError EngineEvaluation

passes :
    (b : Bool) (w : EngineDenial) (e : Evaluated) (a : EngineClaimAdmission)
    → (if b then ok (denied w) else e) ≡ ok (admitted a)
    → (b ≡ false) × (e ≡ ok (admitted a))
passes true w e a h = let bad : ⊥ = cc in absurd bad
passes false w e a h = (refl, h)

timeout_bounds :
    (now_ms deadline_ms : ℕ)
    → ltb (deadline_ms - now_ms) 300000 ≡ false
    → HasTime now_ms deadline_ms (timeout_of (deadline_ms - now_ms))
unfolding timeout_of
timeout_bounds now_ms deadline_ms h = record {
  at_least = ground arith;
  at_most = ground arith;
  in_time = ground arith;
}

admit-eq-admitted :
    (run : EngineClaimRun) (remaining_ms : ℕ) (eligible : Bool) (o p v : Option String)
    (i : Eligibility) (a : EngineClaimAdmission)
    → admit run remaining_ms eligible o p v i ≡ admitted a
    → (eligible ≡ true)
      × (o ≡ some a.report_id)
      × (p ≡ some a.report_received_at)
      × (v ≡ some a.engine_version)
      × (a.engine ≡ run.engine)
      × (a.assigned_runner_id ≡ run.assigned_runner_id)
      × (a.timeout_ms ≡ timeout_of remaining_ms)
unfolding admit
admit-eq-admitted run remaining_ms true (some o) (some p) (some v) i a h = ground arith
admit-eq-admitted run remaining_ms true (some o) (some p) none i a h =
    let bad : ⊥ = cc in absurd bad
admit-eq-admitted run remaining_ms true (some o) none v i a h = let bad : ⊥ = cc in absurd bad
admit-eq-admitted run remaining_ms true none p v i a h = let bad : ⊥ = cc in absurd bad
admit-eq-admitted run remaining_ms false o p v i a h = let bad : ⊥ = cc in absurd bad

available-IsClaimable :
    (d : Dates) (organization : String) (run : EngineClaimRun) (now_ms : ℕ)
    → is_available d organization run now_ms ≡ true
    → (run.organization_id ≡ organization)
      × ((run.status ≡ queued) ⊎ (run.status ≡ leased))
      × (run.claim_count < run.max_claims)
      × (run.cancel_requested_at ≡ none)
      × (is_live d run now_ms ≡ false)
unfolding is_available
available-IsClaimable d organization run now_ms h =
    ground (arith, eq_iff run.organization_id organization)

-- The evaluation of a found run, as far as the inventory.
evaluate_run-eq-admitted :
    (d : Dates) (s : EngineClaimSnapshot) (run : EngineClaimRun) (now_ms deadline_ms : ℕ)
    (a : EngineClaimAdmission)
    → evaluate_run d s run now_ms deadline_ms ≡ ok (admitted a)
    → IsClaimable d s run now_ms
      × (ltb (deadline_ms - now_ms) 300000 ≡ false)
      × (evaluate_inventory d s run (deadline_ms - now_ms) ≡ ok (admitted a))
unfolding evaluate_run
evaluate_run-eq-admitted d s run now_ms deadline_ms a h =
    let (h1, k1) =
      passes (leb deadline_ms now_ms || not (is_available d s.runner_organization_id run now_ms))
        run_unavailable _ a h in
    let (h2, k2) =
      passes (not (str_eq run.assigned_runner_id s.runner_id)) run_assignment_mismatch _ a k1 in
    let (h3, k3) = passes (not (engine_eq s.requested_engine run.engine)) engine_mismatch _ a k2 in
    let (h4, k4) = passes (ltb 1 (length s.runner_leases)) runner_conflict _ a k3 in
    let (h5, k5) =
      passes (any (is_foreign_lease d run.id now_ms) s.runner_leases) runner_busy _ a k4 in
    let (h6, k6) = passes (ltb (deadline_ms - now_ms) 300000) engine_deadline_insufficient _ a k5 in
    let (organization, status, left, cancel, held) =
      available-IsClaimable d s.runner_organization_id run now_ms (ground arith) in
    (
      record {
        same_organization = organization;
        is_open = status;
        claims_left = left;
        not_canceled = cancel;
        not_held = held;
        assigned = ground (arith, eq_iff run.assigned_runner_id s.runner_id);
        same_engine = ground arith;
        one_lease = ground arith;
        others_over = (no_foreign_iff d run.id now_ms s.runner_leases).0 h5;
      },
      h6,
      k6,
    )

evaluate_found-IsSound :
    (d : Dates) (s : EngineClaimSnapshot) (run : EngineClaimRun) (now_ms deadline_ms : ℕ)
    (a : EngineClaimAdmission)
    → s.runner_active ≡ true
    → s.run ≡ some run
    → d.parse s.now ≡ some now_ms
    → d.parse run.deadline_at ≡ some deadline_ms
    → evaluate_run d s run now_ms deadline_ms ≡ ok (admitted a)
    → IsSound d s a
unfolding evaluate_inventory
evaluate_found-IsSound d s run now_ms deadline_ms a is_on f n e h =
    let (claimable, time, k) = evaluate_run-eq-admitted d s run now_ms deadline_ms a h in
    let (i, evaluated, m) = >>=-eq-ok _ _ k in
    let (eligible, report_id, received_at, version, engine, assigned, timeout) =
      admit-eq-admitted run (deadline_ms - now_ms) _ _ _ _ i a (ground arith) in
    let bounds = timeout_bounds now_ms deadline_ms time in
    record {
      run = run;
      now_ms = now_ms;
      deadline_ms = deadline_ms;
      runner_active = is_on;
      found = f;
      now_parses = n;
      deadline_parses = e;
      assigned_to = assigned ∙ claimable.assigned;
      claimable = claimable;
      time = subst (HasTime now_ms deadline_ms) (sym timeout) bounds;
      of_inventory = record {
        inventory = i;
        evaluated = evaluated;
        is_eligible = eligible;
        engine = engine;
        report_id = report_id;
        received_at = received_at;
        version = version;
      };
    }

-- A claim of an engine run that is admitted is one of an active runner on a run that it can claim
-- now, which is of the engine that the runner asked for; the engine has between 270 and 600
-- seconds, and half a minute is left after them before the run's deadline; and the report, its
-- time and the engine's version are those of an eligible evaluation of the runner's inventory.
pub engine_claim-IsSound :
    (d : Dates) (s : EngineClaimSnapshot) (a : EngineClaimAdmission)
    → evaluate_engine_claim_admission d s ≡ ok (admitted a)
    → IsSound d s a
unfolding evaluate_engine_claim_admission evaluate_found evaluate_with
engine_claim-IsSound d s a h =
    let (h1, k) = passes (not s.runner_active) runner_rejected _ a h in
    elim (Option-cases s.run) [
      | inl f ↦ let bad : ⊥ = ground arith in absurd bad
      | inr (run, f) ↦ elim (Option-cases (d.parse s.now)) [
        | inl n ↦ let bad : ⊥ = ground arith in absurd bad
        | inr (now_ms, n) ↦ elim (Option-cases (d.parse run.deadline_at)) [
          | inl e ↦ let bad : ⊥ = ground arith in absurd bad
          | inr (deadline_ms, e) ↦
              evaluate_found-IsSound d s run now_ms deadline_ms a (ground arith) f n e
                (ground arith)
        ]
      ]
    ]
