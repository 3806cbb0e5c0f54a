-- ===== src/Runners/Claim/Laws.antt =====
-- When a claim of a run is admitted (evaluateClaimAdmission of
-- src/domain/runners/claim-admission.ts).
use mathlib.Core.Path.{subst}
use nexusos_agentic.Base.{
  ℕ, ◌≡◌, ◌≢◌, ◌≤◌, ◌<◌, ◌⊎◌, ◌↔◌, refl, inl, inr, String, Bool, true, false, not, Option, none,
  some, List, [], ◌∷◌, arith, All, any, length, eq_iff, if◌then◌else◌,
}
use nexusos_agentic.Runtime.{Dates}
use nexusos_agentic.Runners.Basics.{Capability, active, later_than}
use nexusos_agentic.Runners.Declaration.{evaluate_declaration_admission}
use nexusos_agentic.Runners.Claim.{
  ClaimRun, RunnerLease, ClaimSnapshot, queued, leased, Evaluation, admitted, denied,
  ClaimAdmission, parse_opt, live_current_lease, is_available, is_foreign_lease,
  is_assigned_elsewhere, admit, evaluate_run, evaluate_with, evaluate_claim_admission, Denial,
}

-- A lease of another run is over at `now_ms`, or its expiry does not parse.
abbrev pub IsOver : Dates → String → ℕ → RunnerLease → Type 0
IsOver d run_id now_ms l = (l.run_id ≡ run_id) ⊎ (later_than (d.parse l.expires_at) now_ms ≡ false)

-- What a claim asks for at the time `now_ms`, apart from the runner's capabilities.
pub record IsClaimable (d : Dates) (s : ClaimSnapshot) (run : ClaimRun) (now_ms : ℕ) : Type 0 where
  pub same_organization : run.organization_id ≡ s.runner_organization_id
  pub is_open : (run.status ≡ queued) ⊎ (run.status ≡ leased)
  pub before_deadline : later_than (d.parse run.deadline_at) now_ms ≡ true
  pub claims_left : run.claim_count < run.max_claims
  pub not_held :
      (run.status ≢ leased)
      ⊎ (run.lease_status ≢ some active)
      ⊎ (later_than (parse_opt d run.lease_expires_at) now_ms ≡ false)
  pub assignable : (run.assigned_runner_id ≡ none) ⊎ (run.assigned_runner_id ≡ some s.runner_id)
  pub one_lease : length s.runner_leases ≤ 1
  pub others_over : All (IsOver d run.id now_ms) s.runner_leases

pub no_foreign_iff :
    (d : Dates) (id : String) (now_ms : ℕ) (ls : List RunnerLease)
    → (any (is_foreign_lease d id now_ms) ls ≡ false) ↔ All (IsOver d id now_ms) ls
unfolding is_foreign_lease
no_foreign_iff d id now_ms [] = ((λ h. tt), (λ h. refl))
no_foreign_iff d id now_ms (l ∷ ls) =
    ground (arith, eq_iff l.run_id id, no_foreign_iff d id now_ms ls)

-- The declaration that the runner's reports make for the capability is satisfied.
abbrev pub IsDeclared : Dates → ClaimSnapshot → Capability → Type 0
IsDeclared d s c =
    (evaluate_declaration_admission d s.now c s.configured_policy
      s.capability_reports).declaration_satisfied
    ≡ true

abbrev pub MeetsAt : Dates → ClaimSnapshot → Option String → Option Capability → Type 0
MeetsAt d s assigned required =
    (required ≡ none)
    ⊎ ((c : Capability) × (r : String) × (required ≡ some c)
        × (assigned ≡ some r)
        × IsDeclared d s c)

admitted_if :
    (b : Bool) (w : Denial) (v : ClaimAdmission)
    → ((a : ClaimAdmission) × ((if not b then denied w else admitted v) ≡ admitted a)) ↔ (b ≡ true)
admitted_if true w v = ((λ h. refl), (λ h. (_, refl)))
admitted_if false w v =
    ((λ (a, e). let bad : ⊥ = cc in absurd bad), (λ h. let bad : ⊥ = cc in absurd bad))

admit_iff :
    (d : Dates) (s : ClaimSnapshot) (assigned : Option String) (required : Option Capability)
    → ((a : ClaimAdmission) × (admit d s assigned required ≡ admitted a))
      ↔ MeetsAt d s assigned required
unfolding admit
admit_iff d s none none = ((λ h. inl refl), (λ h. (_, refl)))
admit_iff d s (some r) none = ((λ h. inl refl), (λ h. (_, refl)))
admit_iff d s none (some c) =
    ((λ (a, e). let bad : ⊥ = cc in absurd bad), (λ h. let bad : ⊥ = ground arith in absurd bad))
admit_iff d s (some r) (some c) = (
  (λ h. inr (c, r, refl, refl, (admitted_if _ _ _).0 h)),
  (λ h. (admitted_if _ _ _).1 (declared h)),
)
  where
    declared : MeetsAt d s (some r) (some c) → IsDeclared d s c
    declared (inl e) = let bad : ⊥ = cc in absurd bad
    declared (inr (c', r', e, _, k)) = let same : c' ≡ c = cc in subst (IsDeclared d s) same k

is_available_iff :
    (d : Dates) (s : ClaimSnapshot) (run : ClaimRun) (now_ms : ℕ)
    → (is_available d s.runner_organization_id run now_ms ≡ true) ↔ (
        (run.organization_id ≡ s.runner_organization_id)
        × ((run.status ≡ queued) ⊎ (run.status ≡ leased))
        × (later_than (d.parse run.deadline_at) now_ms ≡ true)
        × (run.claim_count < run.max_claims)
        × ((run.status ≢ leased)
            ⊎ (run.lease_status ≢ some active)
            ⊎ (later_than (parse_opt d run.lease_expires_at) now_ms ≡ false)))
unfolding is_available live_current_lease
is_available_iff d s run now_ms =
    ground (arith, eq_iff run.organization_id s.runner_organization_id)

is_assigned_iff :
    (assigned : Option String) (runner : String)
    → (is_assigned_elsewhere assigned runner ≡ false)
      ↔ ((assigned ≡ none) ⊎ (assigned ≡ some runner))
is_assigned_iff none runner = ((λ h. inl refl), (λ h. refl))
is_assigned_iff (some r) runner = ground (arith, eq_iff r runner)

abbrev IsAdmitted : Evaluation → Type 0
IsAdmitted e = (a : ClaimAdmission) × (e ≡ admitted a)

passes :
    (b : Bool) (w : Denial) (e : Evaluation)
    → IsAdmitted (if b then denied w else e)
    → (b ≡ false) × IsAdmitted e
passes true w e (a, h) = let bad : ⊥ = cc in absurd bad
passes false w e h = (refl, h)

pass :
    (b : Bool) (w : Denial) (e : Evaluation)
    → b ≡ false
    → IsAdmitted e
    → IsAdmitted (if b then denied w else e)
pass b w e h (a, k) = (a, ground arith)

evaluate_run_iff :
    (d : Dates) (s : ClaimSnapshot) (run : ClaimRun) (now_ms : ℕ)
    → ((a : ClaimAdmission) × (evaluate_run d s run now_ms ≡ admitted a))
      ↔ (IsClaimable d s run now_ms × MeetsAt d s run.assigned_runner_id run.required_capability)
unfolding evaluate_run
evaluate_run_iff d s run now_ms =
    let (available_to, available_from) = is_available_iff d s run now_ms in
    let (over_to, over_from) = no_foreign_iff d run.id now_ms s.runner_leases in
    let (assigned_to, assigned_from) = is_assigned_iff run.assigned_runner_id s.runner_id in
    let (admit_to, admit_from) = admit_iff d s run.assigned_runner_id run.required_capability in
    (
      (λ h.
          let (h1, k1) = passes _ _ _ h in
          let (h2, k2) = passes _ _ _ k1 in
          let (h3, k3) = passes _ _ _ k2 in
          let (h4, k4) = passes _ _ _ k3 in
          let (organization, status, deadline, left, held) = available_to (ground arith) in
          (
            record {
              same_organization = organization;
              is_open = status;
              before_deadline = deadline;
              claims_left = left;
              not_held = held;
              assignable = assigned_to h2;
              one_lease = ground arith;
              others_over = over_to h4;
            },
            admit_to k4,
          )),
      (λ (c, m).
          let available =
            available_from
              (c.same_organization, c.is_open, c.before_deadline, c.claims_left, c.not_held) in
          pass _ _ _ (ground arith) (
            pass _ _ _ (assigned_from c.assignable) (
              pass _ _ _ (ground (arith, c.one_lease))
                (pass _ _ _ (over_from c.others_over) (admit_from m))))),
    )

abbrev IsMetAt : Dates → ClaimSnapshot → Option ClaimRun → Option ℕ → Type 0
IsMetAt d s o t =
    (run : ClaimRun) × (now_ms : ℕ) × (o ≡ some run)
    × (t ≡ some now_ms)
    × IsClaimable d s run now_ms
    × MeetsAt d s run.assigned_runner_id run.required_capability

evaluate_with_iff :
    (d : Dates) (s : ClaimSnapshot) (o : Option ClaimRun) (t : Option ℕ)
    → ((a : ClaimAdmission) × (evaluate_with d s o t ≡ admitted a)) ↔ IsMetAt d s o t
unfolding evaluate_with
evaluate_with_iff d s none t = (
  (λ (a, h). let bad : ⊥ = cc in absurd bad),
  (λ (run, now_ms, e, f, c, m). let bad : ⊥ = cc in absurd bad),
)
evaluate_with_iff d s (some run) none = (
  (λ (a, h). let bad : ⊥ = cc in absurd bad),
  (λ (r, now_ms, e, f, c, m). let bad : ⊥ = cc in absurd bad),
)
evaluate_with_iff d s (some run) (some now_ms) = (
  (λ h. let (c, m) = (evaluate_run_iff d s run now_ms).0 h in (run, now_ms, refl, refl, c, m)),
  (λ (r, n, e, f, c, m).
      let same : r ≡ run = cc in
      let same_time : n ≡ now_ms = cc in
      (evaluate_run_iff d s run now_ms).1 (
        subst
          (λ x. IsClaimable d s x now_ms × MeetsAt d s x.assigned_runner_id x.required_capability)
          same
          (subst (λ n. IsClaimable d s r n × MeetsAt d s r.assigned_runner_id r.required_capability)
            same_time (c, m)))),
)

-- A claim is admitted exactly when the runner is active, the time parses, and there is a run that
-- is claimable at that time and whose required capability, if it has one, the runner's declaration
-- satisfies.
pub claim_iff :
    (d : Dates) (s : ClaimSnapshot)
    → ((a : ClaimAdmission) × (evaluate_claim_admission d s ≡ admitted a)) ↔ (
        (s.runner_active ≡ true)
        × ((run : ClaimRun) × (now_ms : ℕ) × (s.run ≡ some run)
            × (d.parse s.now ≡ some now_ms)
            × IsClaimable d s run now_ms
            × MeetsAt d s run.assigned_runner_id run.required_capability))
unfolding evaluate_claim_admission
claim_iff d s =
    let (to, from) = evaluate_with_iff d s s.run (d.parse s.now) in
    (
      (λ h. let (h1, k) = passes _ _ _ h in (ground arith, to k)),
      (λ (is_on, h). pass _ _ _ (ground arith) (from h)),
    )
