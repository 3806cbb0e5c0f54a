-- ===== src/Runners/Tests.antt =====
-- The admission of runners at concrete reports and runs.
use nexusos_agentic.Base.{ℕ, ◌≡◌, ◌↔◌, refl, true, none, some, List, [], ◌∷◌, ok}
use nexusos_agentic.Runtime.{iso_round_trip}
use nexusos_agentic.Samples.{
  dates, instant_of, text_of, midnight, half_minute, ten_past, one_hour, next_day,
}
use nexusos_agentic.Text.{is_timestamp_shape}
use nexusos_agentic.Runners.Basics.{
  landlock, has_capability, claude_code_cli, is_canonical_timestamp, is_prefixed_id, default_policy,
}
use nexusos_agentic.Runners.Latest.{latest_runner_capability_report, latest_engine_report}
use nexusos_agentic.Runners.Latest.Laws.{Chosen, latest_report-Chosen}
use nexusos_agentic.Runners.Declaration.{
  CapabilityReport, available, unavailable, evaluate_declaration_admission, is_policy_valid,
  allowed_capabilities,
}
use nexusos_agentic.Runners.Declaration.Laws.{IsAdmitting, declaration_iff}
use nexusos_agentic.Runners.Claim.{
  ClaimRun, ClaimSnapshot, ClaimAdmission, queued, evaluate_claim_admission, admitted,
}
use nexusos_agentic.Runners.Claim.Laws.{IsClaimable, MeetsAt, claim_iff}
use nexusos_agentic.Runners.Evidence.{
  EngineReport, Facts, eligible_with, judge_evidence, is_engine_report_version,
}
use nexusos_agentic.Runners.Inventory.{
  Eligibility, eligibility_of, evaluate_engine_inventory_eligibility, freshness_seconds,
  is_version_valid, judge_age, is_engine_freshness_seconds,
}
use nexusos_agentic.Runners.Inventory.Laws.{IsVouchedBy, eligible-IsVouchedBy}
unfoldable use nexusos_agentic.Runners.EngineClaim.{evaluate_run as evaluate_engine_run}
use nexusos_agentic.Runners.EngineClaim.{
  EngineClaimRun, EngineClaimSnapshot, EngineClaimAdmission, queued as engine_queued,
  admitted as engine_admits, evaluate_engine_claim_admission,
}
use nexusos_agentic.Runners.EngineClaim.Laws.{IsSound, engine_claim-IsSound}

-- The two reports of a runner: `landlock` is available in the later one.
abbrev reports : List CapabilityReport
reports =
    record {
      report_id = "cap_0123456789abcdef0123456789abcdef";
      received_at = half_minute;
      body = some available;
    }
    ∷ record {
      report_id = "cap_1123456789abcdef0123456789abcdef";
      received_at = midnight;
      body = some unavailable;
    }
    ∷ []

latest_report-Chosen_example : Chosen dates reports (latest_runner_capability_report dates reports)
latest_report-Chosen_example = latest_report-Chosen dates reports

declaration_iff_example :
    ((evaluate_declaration_admission dates ten_past landlock none reports).declaration_satisfied
      ≡ true)
    ↔ ((is_policy_valid none ≡ true)
        × (has_capability (allowed_capabilities none) landlock ≡ true)
        × ((r : CapabilityReport) × (latest_runner_capability_report dates reports ≡ some r)
            × IsAdmitting dates ten_past none r))
declaration_iff_example = declaration_iff dates ten_past landlock none reports

abbrev run : ClaimRun
run = record {
  id = "run_1";
  organization_id = "org";
  status = queued;
  claim_count = 0;
  max_claims = 3;
  deadline_at = one_hour;
  assigned_runner_id = some "runner";
  required_capability = some landlock;
  lease_status = none;
  lease_expires_at = none;
}

abbrev snapshot : ClaimSnapshot
snapshot = record {
  runner_id = "runner";
  runner_organization_id = "org";
  runner_active = true;
  now = ten_past;
  run = some run;
  runner_leases = [];
  configured_policy = none;
  capability_reports = reports;
}

claim_iff_example :
    ((a : ClaimAdmission) × (evaluate_claim_admission dates snapshot ≡ admitted a)) ↔ (
      (true ≡ true)
      × ((r : ClaimRun) × (now_ms : ℕ) × (some run ≡ some r)
          × (dates.parse ten_past ≡ some now_ms)
          × IsClaimable dates snapshot r now_ms
          × MeetsAt dates snapshot r.assigned_runner_id r.required_capability))
claim_iff_example = claim_iff dates snapshot

abbrev engine_reports : List EngineReport
engine_reports =
    record {
      report_id = "egr_0123456789abcdef0123456789abcdef";
      received_at = midnight;
      body = record {
        evidence_count = 2;
        engine = some claude_code_cli;
        status = some "available";
        readiness = some "ready";
        reason = some "none";
        version = some "2.0.1";
      };
    }
    ∷ []

abbrev facts : Facts
facts = record {
  report_id = some "egr_0123456789abcdef0123456789abcdef";
  received_at = some midnight;
  fresh_until = some next_day;
  status = some "available";
  readiness = some "ready";
  reason = some "none";
  version = some "2.0.1";
}

abbrev eligibility : Eligibility
eligibility = eligibility_of claude_code_cli ten_past none (eligible_with facts)

eligible_now :
    evaluate_engine_inventory_eligibility dates claude_code_cli ten_past none engine_reports
    ≡ ok eligibility
unfolding evaluate_engine_inventory_eligibility is_canonical_timestamp iso_round_trip
    is_timestamp_shape instant_of text_of is_prefixed_id latest_engine_report
    is_engine_report_version judge_age judge_evidence
eligible_now = refl

eligible-IsVouchedBy_example :
    (is_version_valid none ≡ true)
    × (is_engine_freshness_seconds (freshness_seconds none) ≡ true)
    × ((r : EngineReport) × (latest_engine_report engine_reports ≡ some r)
        × IsVouchedBy dates claude_code_cli ten_past (freshness_seconds none) eligibility.facts r)
eligible-IsVouchedBy_example =
    eligible-IsVouchedBy dates claude_code_cli ten_past none engine_reports eligibility eligible_now
      refl

abbrev engine_run : EngineClaimRun
engine_run = record {
  id = "run_2";
  organization_id = "org";
  engine = claude_code_cli;
  status = engine_queued;
  claim_count = 0;
  max_claims = 3;
  deadline_at = one_hour;
  assigned_runner_id = "runner";
  cancel_requested_at = none;
  lease_status = none;
  lease_expires_at = none;
}

abbrev engine_snapshot : EngineClaimSnapshot
engine_snapshot = record {
  runner_id = "runner";
  runner_organization_id = "org";
  runner_active = true;
  requested_engine = claude_code_cli;
  now = ten_past;
  run = some engine_run;
  runner_leases = [];
  configured_policy = none;
  engine_reports = engine_reports;
}

-- Fifty minutes are left: the timeout is the longest one.
abbrev engine_admission : EngineClaimAdmission
engine_admission = record {
  assigned_runner_id = "runner";
  policy_source = default_policy;
  policy_version = 0;
  freshness_seconds = 86400;
  engine = claude_code_cli;
  report_id = "egr_0123456789abcdef0123456789abcdef";
  report_received_at = midnight;
  engine_version = "2.0.1";
  timeout_ms = 600000;
}

engine_admitted :
    evaluate_engine_claim_admission dates engine_snapshot ≡ ok (engine_admits engine_admission)
unfolding evaluate_engine_claim_admission evaluate_engine_inventory_eligibility
    is_canonical_timestamp iso_round_trip is_timestamp_shape instant_of text_of is_prefixed_id
    latest_engine_report is_engine_report_version judge_age judge_evidence evaluate_engine_run
engine_admitted = refl

engine_claim-IsSound_example : IsSound dates engine_snapshot engine_admission
engine_claim-IsSound_example =
    engine_claim-IsSound dates engine_snapshot engine_admission engine_admitted
