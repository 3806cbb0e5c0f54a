-- ===== src/Runners/Declaration/Laws.antt =====
-- When a declaration is satisfied (evaluateDeclarationAdmission of
-- src/domain/runners/claim-admission.ts).
use mathlib.Core.Path.{subst}
use nexusos_agentic.Base.{
  ℕ, ◌+◌, ◌*◌, ◌≡◌, ◌≢◌, ◌≤◌, ◌↔◌, refl, String, Bool, true, false, ◌&&◌, Option, none, some, List,
  arith, is_some, inl, inr, Option-cases,
}
use nexusos_agentic.Runtime.{Dates}
use nexusos_agentic.Runners.Basics.{Capability, has_capability, is_canonical_timestamp}
use nexusos_agentic.Runners.Latest.{latest_runner_capability_report}
use nexusos_agentic.Runners.Declaration.{
  AdmissionPolicy, CapabilityReport, available, satisfied, fresh, FreshnessState, Reason,
  is_satisfied, is_policy_valid, freshness_seconds, allowed_capabilities,
  evaluate_declaration_admission, is_capability_report_fresh, is_within, freshness_of,
  freshness_state, reason_of, reason_of_report,
}

-- A report that admits: it declares the capability available, and was received at a canonical time
-- that is not later than now and no longer ago than the policy's freshness.
pub record IsAdmitting (d : Dates) (now : String) (policy : Option AdmissionPolicy)
    (r : CapabilityReport) : Type 0 where
  pub declares : r.body ≡ some available
  pub canonical : is_canonical_timestamp d r.received_at ≡ true
  pub now_ms : ℕ
  pub received_ms : ℕ
  pub now_parses : d.parse now ≡ some now_ms
  pub received_parses : d.parse r.received_at ≡ some received_ms
  pub not_future : received_ms ≤ now_ms
  pub not_stale : now_ms ≤ received_ms + freshness_seconds policy * 1000

fresh_iff :
    (d : Dates) (now_ms seconds received_ms : ℕ) (r : CapabilityReport)
    → d.parse r.received_at ≡ some received_ms
    → 3600 ≤ seconds
    → seconds ≤ 2592000
    → (freshness_of d now_ms seconds (some r) ≡ fresh) ↔ (
        (is_canonical_timestamp d r.received_at ≡ true)
        × (received_ms ≤ now_ms)
        × (now_ms ≤ received_ms + seconds * 1000))
unfolding freshness_of is_capability_report_fresh is_within
fresh_iff d now_ms seconds received_ms r e lo hi = ground arith

reason_iff :
    (valid allowed : Bool) (age : FreshnessState) (report : Option CapabilityReport)
    → (reason_of valid allowed age report ≡ satisfied) ↔ (
        (valid ≡ true)
        × (allowed ≡ true)
        × (age ≡ fresh)
        × ((r : CapabilityReport) × (report ≡ some r) × (r.body ≡ some available)))
unfolding reason_of reason_of_report
reason_iff valid allowed age none = ((λ h. ground arith), (λ h. ground arith))
reason_iff valid allowed age (some r) = (
  (λ h. (ground arith, ground arith, ground arith, (r, refl, ground arith))),
  (λ (v, a, f, (r', e, b)). ground arith),
)

policy_bounds :
    (policy : Option AdmissionPolicy)
    → is_policy_valid policy ≡ true
    → (3600 ≤ freshness_seconds policy) × (freshness_seconds policy ≤ 2592000)
unfolding is_policy_valid
policy_bounds policy h = ground arith

never_fresh :
    (d : Dates) (now_ms seconds : ℕ) (r : CapabilityReport)
    → d.parse r.received_at ≡ none
    → freshness_of d now_ms seconds (some r) ≢ fresh
unfolding freshness_of is_capability_report_fresh is_within
never_fresh d now_ms seconds r e h = ground arith

satisfied_iff : (r : Reason) → (is_satisfied r ≡ true) ↔ (r ≡ satisfied)
satisfied_iff r = ground arith

-- The freshness state is `fresh` exactly where the policy is valid and the report is in its time.
fresh_state_iff :
    (d : Dates) (now : String) (policy : Option AdmissionPolicy) (now_ms : ℕ) (r : CapabilityReport)
    → d.parse now ≡ some now_ms
    → is_policy_valid policy ≡ true
    → r.body ≡ some available
    → (freshness_state d policy (some now_ms) (some r) ≡ fresh) ↔ IsAdmitting d now policy r
unfolding freshness_state
fresh_state_iff d now policy now_ms r e v b = elim (Option-cases (d.parse r.received_at)) [
  | inl p ↦ (
    (λ h. absurd (
        never_fresh d now_ms (freshness_seconds policy) r p (unfold freshness_of in ground arith))),
    (λ a. ground (arith, a.received_parses)),
  )
  | inr (received_ms, p) ↦
      (let (lo, hi) = policy_bounds policy v in
        let (to, from) = fresh_iff d now_ms (freshness_seconds policy) received_ms r p lo hi in
        (
          (λ h.
              let (c, f, s) = to (ground arith) in
              record {
                declares = b;
                canonical = c;
                now_ms = now_ms;
                received_ms = received_ms;
                now_parses = e;
                received_parses = p;
                not_future = f;
                not_stale = s;
              }),
          (λ a. ground (
            arith,
            from (
              a.canonical,
              ground (arith, a.received_parses, a.now_parses, a.not_future),
              ground (arith, a.received_parses, a.now_parses, a.not_stale),
            ),
          )),
        ))
]

declaration_at :
    (d : Dates) (now : String) (required : Capability) (policy : Option AdmissionPolicy)
    (o : Option ℕ) (report : Option CapabilityReport)
    → d.parse now ≡ o
    → (is_satisfied (
          reason_of
            (is_policy_valid policy && is_some o)
            (has_capability (allowed_capabilities policy) required)
            (freshness_state d policy o report)
            report)
        ≡ true)
      ↔ ((is_policy_valid policy ≡ true)
          × (has_capability (allowed_capabilities policy) required ≡ true)
          × ((r : CapabilityReport) × (report ≡ some r) × IsAdmitting d now policy r))
declaration_at d now required policy none report e = (
  (λ h. ground (
    arith,
    reason_iff false (has_capability (allowed_capabilities policy) required)
        (freshness_state d policy none report) report,
  )),
  (λ (v, a, (r, p, k)). ground (arith, k.now_parses)),
)
declaration_at d now required policy (some now_ms) none e = (
  (λ h.
      let (v, a, f, (r', p, b)) = (reason_iff _ _ _ _).0 ((satisfied_iff _).0 h) in
      let bad : ⊥ = cc in absurd bad),
  (λ (v, a, (r', p, k)). let bad : ⊥ = cc in absurd bad),
)
declaration_at d now required policy (some now_ms) (some r) e = (
  (λ h.
      let (v, a, f, (r', p, b)) = (reason_iff _ _ _ _).0 ((satisfied_iff _).0 h) in
      (
        ground arith,
        a,
        (r, refl, (fresh_state_iff d now policy now_ms r e (ground arith) (ground arith)).0 f),
      )),
  (λ (v, a, (r', p, k)).
      let same : r' ≡ r = cc in
      let k' = subst (IsAdmitting d now policy) same k in
      (satisfied_iff _).1 (
        (reason_iff _ _ _ _).1 (
          ground arith,
          a,
          (fresh_state_iff d now policy now_ms r e v k'.declares).1 k',
          (r, refl, k'.declares),
        ))),
)

-- A declaration satisfies a run's need exactly when the policy is valid and allows the capability,
-- and the latest report declares it available and was received within the policy's freshness of
-- now.
pub declaration_iff :
    (d : Dates) (now : String) (required : Capability) (policy : Option AdmissionPolicy)
    (reports : List CapabilityReport)
    → ((evaluate_declaration_admission d now required policy reports).declaration_satisfied ≡ true)
      ↔ ((is_policy_valid policy ≡ true)
          × (has_capability (allowed_capabilities policy) required ≡ true)
          × ((r : CapabilityReport) × (latest_runner_capability_report d reports ≡ some r)
              × IsAdmitting d now policy r))
unfolding evaluate_declaration_admission
declaration_iff d now required policy reports =
    declaration_at d now required policy (d.parse now) (latest_runner_capability_report d reports)
      refl
