-- ===== src/Engine/Probe.antt =====
-- What is known of an engine, and what it is given: parseEngineProbe and buildEngineJobDescriptor of
-- src/domain/runners/execution-engine.ts.
pub mod Version
pub mod Tests
use nexusos_agentic.Base.{
  ℕ, Bool, true, false, not, ◌&&◌, ◌||◌, ◌==◌, Option, none, some, List, [], ◌∷◌, all, length, leb,
  ltb, if◌then◌else◌,
}
use nexusos_agentic.Text.{units, hex, fits, times, is_char}
use nexusos_agentic.Json.{Units, Value, Fields, text, object, has, lookup, same}
use nexusos_agentic.Json.Read.{◌>>=◌}
use nexusos_agentic.Artifacts.{byte_size}
use nexusos_agentic.Workflow.Records.{
  UnitDates, is_canonical, is_hash, exact_record, matches, guard,
}
use nexusos_agentic.Runners.EngineClaim.{
  engine_execution_timeout_min_ms, engine_execution_timeout_max_ms,
}
use nexusos_agentic.Engine.Contract.{
  one_of, is_engine_name, is_safe_version, letter_or_digit, engine_prompt_max_bytes,
  engine_stdout_max_bytes, engine_stderr_max_bytes,
}

pub record EngineProbe : Type 0 where
  pub collected_at : Units
  pub engine : Units
  pub readiness : Units
  pub reason : Units
  pub status : Units
  pub version : Option Units

abbrev pub engine_probe_readiness : List Units
engine_probe_readiness = units "ready" ∷ units "attention_required" ∷ units "unknown" ∷ []

abbrev pub engine_probe_statuses : List Units
engine_probe_statuses = units "available" ∷ units "unavailable" ∷ units "unknown" ∷ []

abbrev pub engine_probe_reasons : List Units
engine_probe_reasons =
    units "none"
    ∷ units "engine_not_configured"
    ∷ units "engine_binary_invalid"
    ∷ units "engine_auth_attention_required"
    ∷ units "engine_incompatible"
    ∷ units "engine_probe_failed"
    ∷ []

abbrev pub probe_keys : Bool → List Units
probe_keys true =
    units "collectedAt"
    ∷ units "engine"
    ∷ units "readiness"
    ∷ units "reason"
    ∷ units "status"
    ∷ units "version"
    ∷ []
probe_keys false =
    units "collectedAt" ∷ units "engine" ∷ units "readiness" ∷ units "reason" ∷ units "status" ∷ []

abbrev pub is_present : Option Units → Bool
is_present none = false
is_present (some s) = true

-- `value?.version !== undefined`.
abbrev pub has_version : Value → Bool
has_version (object fs) = has (units "version") fs
has_version _ = false

unfoldable pub is_probe_consistent : EngineProbe → Bool
unfolding same
is_probe_consistent p =
    if same p.readiness (units "ready")
    then same p.status (units "available") && same p.reason (units "none") && is_present p.version
    else if same p.readiness (units "unknown")
    then same p.status (units "unknown")
      && same p.reason (units "engine_probe_failed")
      && not (is_present p.version)
    else if not (same p.readiness (units "attention_required"))
    then false
    else if same p.reason (units "engine_not_configured")
        || same p.reason (units "engine_binary_invalid")
    then same p.status (units "unavailable") && not (is_present p.version)
    else (same p.reason (units "engine_auth_attention_required")
        || same p.reason (units "engine_incompatible"))
      && same p.status (units "available")
      && is_present p.version

-- The version, where the object has one.
unfoldable pub version_if : Bool → Option Value → Option (Option Units)
unfolding matches
version_if false o = some none
version_if true o = do s ← matches is_safe_version o; some (some s)

unfoldable pub parse_engine_probe : UnitDates → Value → Option EngineProbe
unfolding exact_record matches guard version_if is_probe_consistent
parse_engine_probe d input = do
  fs ← exact_record (probe_keys (has_version input)) input
  collected_at ← matches (is_canonical d) (lookup (units "collectedAt") fs)
  engine ← matches is_engine_name (lookup (units "engine") fs)
  readiness ← matches (one_of engine_probe_readiness) (lookup (units "readiness") fs)
  reason ← matches (one_of engine_probe_reasons) (lookup (units "reason") fs)
  status ← matches (one_of engine_probe_statuses) (lookup (units "status") fs)
  version ← version_if (has_version input) (lookup (units "version") fs)
  let probe : EngineProbe = record {
    collected_at = collected_at;
    engine = engine;
    readiness = readiness;
    reason = reason;
    status = status;
    version = version;
  }
  _ ← guard (is_probe_consistent probe)
  some probe

abbrev pub engine_model_max_bytes : ℕ
engine_model_max_bytes = 200

-- `[A-Za-z0-9 ._:/+()-]`.
abbrev pub model_unit : ℕ → Bool
model_unit c =
    letter_or_digit c
    || c == 32
    || c == b'.'
    || c == b'_'
    || c == b':'
    || c == b'/'
    || c == b'+'
    || c == b'('
    || c == b')'
    || c == b'-'

abbrev pub fits_model : Units → Bool
fits_model [] = false
fits_model (c ∷ cs) = letter_or_digit c && all model_unit cs && leb (length cs) 99

unfoldable pub is_safe_model : Units → Bool
unfolding byte_size
is_safe_model s = leb (byte_size false s) engine_model_max_bytes && fits_model s

abbrev pub is_safe_model_if : Option Units → Bool
is_safe_model_if none = true
is_safe_model_if (some s) = is_safe_model s

-- `/^prm_[0-9a-f]{32}$/u`.
unfoldable pub is_prompt_ref : Units → Bool
unfolding fits
is_prompt_ref s = fits (is_char b'p' ∷ is_char b'r' ∷ is_char b'm' ∷ is_char b'_' ∷ times 32 hex) s

-- `EngineJobDescriptor`, but for the bounds of the output, which are constants.
pub record JobDescriptor : Type 0 where
  pub deadline_at : Units
  pub engine : Units
  pub engine_version : Units
  pub model : Option Units
  pub prompt_bytes : ℕ
  pub prompt_ref : Units
  pub prompt_sha256 : Units
  pub timeout_ms : ℕ

-- The descriptor of its own parts; `none` is a TypeError.
unfoldable pub build_engine_job_descriptor : UnitDates → JobDescriptor → Option JobDescriptor
unfolding is_safe_model is_prompt_ref
build_engine_job_descriptor d i =
    if is_engine_name i.engine
      && is_safe_version i.engine_version
      && is_safe_model_if i.model
      && is_canonical d i.deadline_at
      && leb engine_execution_timeout_min_ms i.timeout_ms
      && leb i.timeout_ms engine_execution_timeout_max_ms
      && is_prompt_ref i.prompt_ref
      && is_hash i.prompt_sha256
      && leb 1 i.prompt_bytes
      && leb i.prompt_bytes engine_prompt_max_bytes
    then some i
    else none
