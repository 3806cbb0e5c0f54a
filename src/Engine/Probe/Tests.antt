-- ===== src/Engine/Probe/Tests.antt =====
-- Probes and descriptors at concrete values.
use nexusos_agentic.Base.{◌≡◌, ◌↔◌, refl, true, none, some, if◌then◌else◌}
use nexusos_agentic.Text.{units, push_units, fits}
use nexusos_agentic.Json.{Units, Value, text, object, field, end, has, lookup, same}
use nexusos_agentic.Workflow.Records.{UnitDates, is_canonical, is_hash}
use nexusos_agentic.Engine.Contract.{one_of, is_engine_name, is_safe_version}
use nexusos_agentic.Engine.Probe.{
  EngineProbe, is_present, parse_engine_probe, JobDescriptor, build_engine_job_descriptor,
}
use nexusos_agentic.Engine.Probe.Version.{probe_version_iff}

abbrev noon : Units
noon = units "2026-03-01T12:00:00.000Z"

abbrev dates : UnitDates
dates = record { parse = λ s. if same s noon then some 7 else none; to_iso = λ n. some noon }

abbrev broken : EngineProbe
broken = record {
  collected_at = noon;
  engine = units "codex_cli";
  readiness = units "attention_required";
  reason = units "engine_binary_invalid";
  status = units "unavailable";
  version = none;
}

abbrev broken_value : Value
broken_value = object (
    field (units "collectedAt") (text noon) (
      field (units "engine") (text (units "codex_cli")) (
        field (units "readiness") (text (units "attention_required")) (
          field (units "reason") (text (units "engine_binary_invalid"))
            (field (units "status") (text (units "unavailable")) end)))))

broken-parsed : parse_engine_probe dates broken_value ≡ some broken
unfolding parse_engine_probe is_engine_name one_of is_canonical fits same has lookup units
    push_units
broken-parsed = refl

probe_version_iff_example : (is_present broken.version ≡ true) ↔ (broken.status ≡ units "available")
probe_version_iff_example = probe_version_iff dates broken_value broken broken-parsed

abbrev job : JobDescriptor
job = record {
  deadline_at = noon;
  engine = units "claude_code_cli";
  engine_version = units "2.0";
  model = some (units "opus/4:1");
  prompt_bytes = 8192;
  prompt_ref = units "prm_00112233445566778899aabbccddeeff";
  prompt_sha256 = units "0000000000000000000000000000000000000000000000000000000000000000";
  timeout_ms = 270000;
}

job-built : build_engine_job_descriptor dates job ≡ some job
unfolding build_engine_job_descriptor is_engine_name is_safe_version is_canonical is_hash fits same
    units push_units
job-built = refl

-- A prompt of one byte more is refused.
job-refused : build_engine_job_descriptor dates (record job { prompt_bytes = 8193 }) ≡ none
unfolding build_engine_job_descriptor is_engine_name is_safe_version is_canonical is_hash fits same
    units push_units
job-refused = refl
