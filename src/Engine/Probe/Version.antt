-- ===== src/Engine/Probe/Version.antt =====
-- When a probe has a version (src/domain/runners/execution-engine.ts).
use mathlib.Core.Path.{subst}
use nexusos_agentic.Base.{◌≡◌, ◌↔◌, refl, sym, ◌∙◌, true, false, some, [], ◌∷◌, arith}
use nexusos_agentic.Text.{units, push_units}
use nexusos_agentic.Json.{Units, Value, lookup, same}
use nexusos_agentic.Governance.Canonical.Laws.{same_iff}
use nexusos_agentic.Workflow.Records.{UnitDates, is_canonical, exact_record, matches}
use nexusos_agentic.Workflow.Records.Steps.{bind_then, guard_pass, some_injective}
use nexusos_agentic.Engine.Contract.{one_of, is_engine_name}
use nexusos_agentic.Engine.Probe.{
  EngineProbe, engine_probe_readiness, engine_probe_reasons, engine_probe_statuses, probe_keys,
  has_version, is_present, is_probe_consistent, version_if, parse_engine_probe,
}

unknown-unavailable :
    (s : Units)
    → (same s (units "unknown") ≡ true → same s (units "available") ≡ false)
      × (same s (units "unavailable") ≡ true → same s (units "available") ≡ false)
unfolding same units push_units
unknown-unavailable [] = ((λ h. refl), (λ h. refl))
unknown-unavailable (c ∷ cs) = ((λ h. ground arith), (λ h. ground arith))

consistent_version :
    (p : EngineProbe)
    → is_probe_consistent p ≡ true
    → is_present p.version ≡ same p.status (units "available")
unfolding is_probe_consistent
consistent_version p h = let (other, away) = unknown-unavailable p.status in ground arith

-- A probe that is read reports a version exactly when its engine is available.
pub probe_version_iff :
    (d : UnitDates) (v : Value) (p : EngineProbe)
    → parse_engine_probe d v ≡ some p
    → (is_present p.version ≡ true) ↔ (p.status ≡ units "available")
unfolding parse_engine_probe
probe_version_iff d v p h = bind_then (exact_record (probe_keys (has_version v)) v) h λ fs _ h1.
    bind_then (matches (is_canonical d) (lookup (units "collectedAt") fs)) h1 λ at _ h2.
      bind_then (matches is_engine_name (lookup (units "engine") fs)) h2 λ engine _ h3.
        bind_then (matches (one_of engine_probe_readiness) (lookup (units "readiness") fs)) h3
          λ readiness _ h4.
            bind_then (matches (one_of engine_probe_reasons) (lookup (units "reason") fs)) h4
              λ reason _ h5.
                bind_then (matches (one_of engine_probe_statuses) (lookup (units "status") fs)) h5
                  λ status _ h6.
                    bind_then (version_if (has_version v) (lookup (units "version") fs)) h6
                      λ version _ h7.
                        let probe : EngineProbe = record {
                          collected_at = at;
                          engine = engine;
                          readiness = readiness;
                          reason = reason;
                          status = status;
                          version = version;
                        } in
                        guard_pass (is_probe_consistent probe) _ h7 λ consistent h8.
                          let same_probe : probe ≡ p = some_injective h8 in
                          subst
                            (λ p. (is_present p.version ≡ true) ↔ (p.status ≡ units "available"))
                            same_probe
                            (let c = consistent_version probe consistent in
                              let s = same_iff status (units "available") in
                              ((λ e. s.0 (sym c ∙ e)), (λ e. c ∙ s.1 e)))
