-- ===== src/Runners/Inventory/Laws.antt =====
-- What an eligible evaluation of a runner's inventory means (evaluateEngineInventoryEligibility of
-- src/domain/runners/engine-inventory-eligibility.ts).
use mathlib.Core.Path.{subst}
use nexusos_agentic.Base.{
  sym, ap, ◌∙◌, ◌>>=◌, inl, inr, ℕ, ◌≡◌, ◌≤◌, ◌+◌, ◌*◌, refl, String, Bool, true, false, not, ◌&&◌,
  ◌||◌, Option, none, some, List, arith, is_some, eq_iff, Option-cases, if◌then◌else◌, Result, ok,
  err, ltb,
}
use nexusos_agentic.Runtime.{Dates}
use nexusos_agentic.Runners.Basics.{Engine, is_canonical_timestamp, is_engine_report_id}
use nexusos_agentic.Runners.Latest.{latest_engine_report}
use nexusos_agentic.Runners.Evidence.{
  Evidence, EngineReport, Facts, Verdict, eligible_with, disabled, engine_version_missing,
  engine_evidence_missing, engine_inventory_inconsistent, engine_report_future, engine_report_stale,
  DisabledReason, unready_reason, is_inconsistent, is_text, is_engine, classify, evidence_missing,
  evidence_facts, judge_evidence, no_facts, engine_policy_invalid,
}
use nexusos_agentic.Runners.Inventory.{
  EnginePolicy, Eligibility, InventoryError, judge_freshness, judge_age, judge_times, verdict_of,
  eligibility_of, judge_report, known_of, freshness_seconds, evaluate_engine_inventory_eligibility,
  is_version_valid, is_engine_freshness_seconds, exceeds, last_instant,
}

-- What the facts of an engine that can run say.
pub record IsReady (f : Facts) : Type 0 where
  pub available : f.status ≡ some "available"
  pub ready : f.readiness ≡ some "ready"
  pub no_reason : f.reason ≡ some "none"
  pub versioned : is_some f.version ≡ true

is_text-eq : (o : Option String) (s : String) → is_text o s ≡ true → o ≡ some s
is_text-eq none s h = let bad : ⊥ = cc in absurd bad
is_text-eq (some a) s h = ground (arith, eq_iff a s)

ok-injective : {v w : Verdict} → Path (Result InventoryError Verdict) (ok v) (ok w) → v ≡ w
ok-injective h = cc

-- The form of the code: two tests before `eligible`.
two_tests :
    (b c : Bool) (w v : DisabledReason) (k f : Facts)
    → (if b then (if c then eligible_with k else disabled w k) else disabled v k) ≡ eligible_with f
    → (b ≡ true) × (c ≡ true) × (f ≡ k)
two_tests true true w v k f h = (refl, refl, ground arith)
two_tests true false w v k f h = let bad : ⊥ = cc in absurd bad
two_tests false c w v k f h = let bad : ⊥ = cc in absurd bad

classify-eq-eligible : (k f : Facts) → classify k ≡ eligible_with f → (f ≡ k) × IsReady k
unfolding classify
classify-eq-eligible k f h =
    let (b, c, same) =
      two_tests
        (is_text k.status "available" && is_text k.readiness "ready" && is_text k.reason "none")
        (is_some k.version) engine_version_missing (unready_reason k) k f h in
    (
      same,
      record {
        available = is_text-eq k.status "available" (ground arith);
        ready = is_text-eq k.readiness "ready" (ground arith);
        no_reason = is_text-eq k.reason "none" (ground arith);
        versioned = c;
      },
    )

not_disabled :
    (b : Bool) (w : DisabledReason) (k f : Facts) (v : Verdict)
    → (if b then disabled w k else v) ≡ eligible_with f
    → (b ≡ false) × (v ≡ eligible_with f)
not_disabled true w k f v h = let bad : ⊥ = cc in absurd bad
not_disabled false w k f v h = (refl, h)

consistent :
    (requested : Engine) (f : Facts) (e : Evidence)
    → is_inconsistent requested f e ≡ false
    → (e.evidence_count ≡ 2) × (is_engine e.engine requested ≡ true)
consistent requested f e h = ground arith

judge_evidence-eq-eligible :
    (requested : Engine) (known f : Facts) (e : Evidence)
    → judge_evidence requested known e ≡ eligible_with f
    → (f ≡ evidence_facts known e)
      × IsReady (evidence_facts known e)
      × (e.evidence_count ≡ 2)
      × (is_engine e.engine requested ≡ true)
unfolding judge_evidence
judge_evidence-eq-eligible requested known f e h =
    let k = evidence_facts known e in
    let (h1, k1) = not_disabled (evidence_missing e) engine_evidence_missing known f _ h in
    let (h2, k2) =
      not_disabled (is_inconsistent requested k e) engine_inventory_inconsistent k f _ k1 in
    let (same, ready) = classify-eq-eligible k f k2 in
    let (count, engine) = consistent requested k e h2 in (same, ready, count, engine)

judge_freshness-eq-eligible :
    (requested : Engine) (r : EngineReport) (received_ms until_ms now_ms : ℕ) (o : Option String)
    (f : Facts)
    → judge_freshness requested r received_ms until_ms now_ms o ≡ ok (eligible_with f)
    → (until : String) × (o ≡ some until)
      × (received_ms ≤ now_ms)
      × (now_ms ≤ until_ms)
      × (judge_evidence requested (known_of r (some until)) r.body ≡ eligible_with f)
unfolding judge_freshness
judge_freshness-eq-eligible requested r received_ms until_ms now_ms none f h =
    let bad : ⊥ = cc in absurd bad
judge_freshness-eq-eligible requested r received_ms until_ms now_ms (some until) f h =
    let known = known_of r (some until) in
    let (h1, k1) =
      not_disabled (ltb now_ms received_ms) engine_report_future known f _ (ok-injective h) in
    let (h2, k2) = not_disabled (ltb until_ms now_ms) engine_report_stale known f _ k1 in
    (until, refl, ground arith, ground arith, k2)

-- A test of the code that disables the engine.
not_refused :
    (b : Bool) (w : DisabledReason) (k f : Facts) (v : Result InventoryError Verdict)
    → (if b then ok (disabled w k) else v) ≡ ok (eligible_with f)
    → (b ≡ false) × (v ≡ ok (eligible_with f))
not_refused true w k f v h = let bad : ⊥ = cc in absurd bad
not_refused false w k f v h = (refl, h)

-- The report that makes an engine eligible at `now`: fresh for the policy's time, of the two rows
-- of evidence, and saying of the requested engine that it is available and ready.
pub record IsVouchedBy (d : Dates) (requested : Engine) (now : String) (seconds : ℕ) (f : Facts)
    (r : EngineReport) : Type 0 where
  pub received_ms : ℕ
  pub now_ms : ℕ
  pub received_parses : d.parse r.received_at ≡ some received_ms
  pub now_parses : d.parse now ≡ some now_ms
  pub canonical : is_canonical_timestamp d r.received_at ≡ true
  pub not_future : received_ms ≤ now_ms
  pub not_stale : now_ms ≤ received_ms + seconds * 1000
  pub two_rows : r.body.evidence_count ≡ 2
  pub same_engine : is_engine r.body.engine requested ≡ true
  pub until : String
  pub facts : f ≡ evidence_facts (known_of r (some until)) r.body
  pub ready : IsReady f

judge_report-IsVouchedBy :
    (d : Dates) (requested : Engine) (now : String) (seconds : ℕ) (f : Facts) (r : EngineReport)
    → judge_report d requested now seconds (some r) ≡ ok (eligible_with f)
    → IsVouchedBy d requested now seconds f r
unfolding judge_report judge_times judge_age
judge_report-IsVouchedBy d requested now seconds f r h =
    let (h1, k1) =
      not_refused
        (not (is_engine_report_id r.report_id) || not (is_canonical_timestamp d r.received_at))
        engine_inventory_inconsistent no_facts f _ h in
    elim (Option-cases (d.parse r.received_at)) [
      | inl p ↦ let bad : ⊥ = ground arith in absurd bad
      | inr (received_ms, p) ↦ elim (Option-cases (d.parse now)) [
        | inl e ↦ let bad : ⊥ = ground arith in absurd bad
        | inr (now_ms, e) ↦
            let (h2, k2) =
              not_refused (exceeds (received_ms + seconds * 1000) (d.parse last_instant))
                engine_inventory_inconsistent (known_of r none) f
                (judge_freshness requested r received_ms (received_ms + seconds * 1000) now_ms
                  (d.to_iso (received_ms + seconds * 1000)))
                (ground arith) in
            let (until, text, from, to, k3) =
              judge_freshness-eq-eligible requested r received_ms _ now_ms _ f k2 in
            let (same, ready, count, engine) =
              judge_evidence-eq-eligible requested (known_of r (some until)) f r.body k3 in
            record {
              received_ms = received_ms;
              now_ms = now_ms;
              received_parses = p;
              now_parses = e;
              canonical = ground arith;
              not_future = from;
              not_stale = to;
              two_rows = count;
              same_engine = engine;
              until = until;
              facts = same;
              ready = subst IsReady (sym same) ready;
            }
      ]
    ]

no_report :
    (d : Dates) (requested : Engine) (now : String) (seconds : ℕ) (f : Facts)
    (o : Option EngineReport)
    → o ≡ none
    → judge_report d requested now seconds o ≡ ok (eligible_with f)
    → ⊥
unfolding judge_report
no_report d requested now seconds f none e h = cc
no_report d requested now seconds f (some r) e h = cc

verdict-IsVouchedBy :
    (d : Dates) (requested : Engine) (now : String) (policy : Option EnginePolicy)
    (reports : List EngineReport) (f : Facts)
    → verdict_of d requested now policy reports ≡ ok (eligible_with f)
    → (is_version_valid policy ≡ true)
      × (is_engine_freshness_seconds (freshness_seconds policy) ≡ true)
      × ((r : EngineReport) × (latest_engine_report reports ≡ some r)
          × IsVouchedBy d requested now (freshness_seconds policy) f r)
unfolding verdict_of
verdict-IsVouchedBy d requested now policy reports f h =
    let (h1, k1) =
      not_refused
        (not (is_version_valid policy && is_engine_freshness_seconds (freshness_seconds policy)))
        engine_policy_invalid no_facts f _ h in
    elim (Option-cases (latest_engine_report reports)) [
      | inl n ↦
          let bad : ⊥ = no_report d requested now (freshness_seconds policy) f _ n k1 in absurd bad
      | inr (r, e) ↦ (
        ground arith,
        ground arith,
        (
          r,
          e,
          judge_report-IsVouchedBy d requested now (freshness_seconds policy) f r
              (ap (judge_report d requested now (freshness_seconds policy)) (sym e) ∙ k1),
        ),
      )
    ]

eligible_verdict :
    (m : Result InventoryError Verdict) (requested : Engine) (now : String)
    (policy : Option EnginePolicy) (e : Eligibility)
    → (m >>= λ v. ok (eligibility_of requested now policy v)) ≡ ok e
    → e.eligible ≡ true
    → m ≡ ok (eligible_with e.facts)
eligible_verdict (err x) requested now policy e h k = cc
eligible_verdict (ok (disabled w f)) requested now policy e h k =
    let bad : ⊥ = ground arith in absurd bad
eligible_verdict (ok (eligible_with f)) requested now policy e h k = ground arith

-- An engine that the evaluation calls eligible is vouched for by the runner's latest report: the
-- policy is valid, the report is canonical and was received before now and within the policy's
-- freshness of it, its two rows of evidence are of the requested engine, and the facts returned are
-- that report's, which say that the engine is available, ready and of a known version.
pub eligible-IsVouchedBy :
    (d : Dates) (requested : Engine) (now : String) (policy : Option EnginePolicy)
    (reports : List EngineReport) (e : Eligibility)
    → evaluate_engine_inventory_eligibility d requested now policy reports ≡ ok e
    → e.eligible ≡ true
    → (is_version_valid policy ≡ true)
      × (is_engine_freshness_seconds (freshness_seconds policy) ≡ true)
      × ((r : EngineReport) × (latest_engine_report reports ≡ some r)
          × IsVouchedBy d requested now (freshness_seconds policy) e.facts r)
unfolding evaluate_engine_inventory_eligibility
eligible-IsVouchedBy d requested now policy reports e h eligible =
    verdict-IsVouchedBy d requested now policy reports e.facts (
      eligible_verdict (verdict_of d requested now policy reports) requested now policy e
        (ground arith) eligible)
