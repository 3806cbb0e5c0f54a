-- ===== src/Engine/Execute.antt =====
-- The execution of a prompt by an engine: executeWithEngine of
-- src/domain/runners/execution-engine.ts.
pub mod Faults
pub mod Sound
pub mod Null
use nexusos_agentic.Base.{
  ℕ, ◌+◌, Bool, true, false, not, ◌&&◌, ◌||◌, ◌==◌, Option, none, some, List, [], ◌∷◌, any, length,
  ltb, leb, if◌then◌else◌, Result, ok, err, ◌>>=◌, ◌>>◌,
}
use nexusos_agentic.Text.{units}
use nexusos_agentic.Json.{
  Units, Value, Fields, text, number, null, bool, object, field, end, lookup, same,
}
use nexusos_agentic.Workflow.Records.{UnitDates, is_canonical, is_hash, exact_record, reject_if}
use nexusos_agentic.Runners.EngineClaim.{
  engine_execution_timeout_min_ms, engine_execution_timeout_max_ms,
}
use nexusos_agentic.Engine.Excerpts.{Bytes, engine_excerpt_max_bytes}
use nexusos_agentic.Engine.Contract.{
  engine_stdout_max_bytes, engine_stderr_max_bytes, engine_prompt_max_bytes, is_engine_name,
  is_safe_version,
}
use nexusos_agentic.Engine.Input.{
  normalized_separators, is_drive, starts_at_root, ends_with_separator, has_empty_segment,
  segment_ends, dots_here, has_dots, is_absolute_workdir, number_is, bounds_exact, record_of,
  limits_exact, has_exact_limits,
}
use nexusos_agentic.Engine.Streams.{ParseFailure, rejected, threw, empty_stream_receipt}
use nexusos_agentic.Engine.Result.{ExecutionResult, parse_engine_execution_result, result_value}

-- `EngineExecutionFaultReason`.
pub data FaultReason : Type 0 where
  engine_incompatible engine_deadline_exhausted prompt_unavailable prompt_erased : FaultReason
  prompt_integrity_mismatch spawn_failed timed_out cancel_requested lease_lost : FaultReason
  interrupted_after_start orphan_identity_ambiguous protocol_invalid : FaultReason

abbrev pub reason_text : FaultReason → Units
reason_text engine_incompatible = units "engine_incompatible"
reason_text engine_deadline_exhausted = units "engine_deadline_exhausted"
reason_text prompt_unavailable = units "prompt_unavailable"
reason_text prompt_erased = units "prompt_erased"
reason_text prompt_integrity_mismatch = units "prompt_integrity_mismatch"
reason_text spawn_failed = units "spawn_failed"
reason_text timed_out = units "timed_out"
reason_text cancel_requested = units "cancel_requested"
reason_text lease_lost = units "lease_lost"
reason_text interrupted_after_start = units "interrupted_after_start"
reason_text orphan_identity_ambiguous = units "orphan_identity_ambiguous"
reason_text protocol_invalid = units "protocol_invalid"

-- `EngineExecutionInput`; `aborted` is the state of the signal when it is read.
pub record ExecutionInput : Type 0 where
  pub deadline_at : Units
  pub engine : Units
  pub engine_version : Units
  pub prompt : Bytes
  pub prompt_sha256 : Units
  pub aborted : Bool
  pub limits : Value
  pub timeout_ms : ℕ
  pub workdir : Units

-- What `engine.execute` does: it returns a value, throws a closed fault, or throws something else.
pub data Outcome : Type 0 where
  returned : Value → Outcome
  faulted : FaultReason → Outcome
  failed : Outcome

pub record Engine : Type 0 where
  pub name : Units
  pub execute : ExecutionInput → Outcome

pub data ExecutionError : Type 0 where
  invalid_input invalid_clock parse_threw : ExecutionError
  cancellation_invalid fault_invalid outside_fault_protocol result_invalid : ExecutionError

abbrev pub is_cancel : FaultReason → Bool
is_cancel cancel_requested = true
is_cancel _ = false

abbrev pub is_timeout : FaultReason → Bool
is_timeout timed_out = true
is_timeout _ = false

unfoldable pub empty_failure_result : ExecutionInput → FaultReason → Units → Units → ExecutionResult
empty_failure_result input reason started_at finished_at = record {
  cancel_requested = is_cancel reason;
  engine = input.engine;
  engine_version = input.engine_version;
  exit_code = none;
  finished_at = finished_at;
  reason = reason_text reason;
  started_at = started_at;
  status = if is_cancel reason then units "canceled" else units "failed";
  stderr = empty_stream_receipt;
  stdout = empty_stream_receipt;
  summary = reason_text reason;
  timed_out = is_timeout reason;
}

-- The failure of a parse in `validatedEngineResult`, with its message.
abbrev pub or_contract_error :
    ExecutionError → Result ParseFailure ExecutionResult → Result ExecutionError ExecutionResult
or_contract_error e (ok r) = ok r
or_contract_error e (err rejected) = err e
or_contract_error e (err threw) = err parse_threw

unfoldable pub validated_engine_result :
    UnitDates → ExecutionError → Value → Result ExecutionError ExecutionResult
unfolding parse_engine_execution_result
validated_engine_result d e v = or_contract_error e (parse_engine_execution_result d v)

unfoldable pub checked_clock : UnitDates → Units → Result ExecutionError Units
checked_clock d reading = if is_canonical d reading then ok reading else err invalid_clock

unfoldable pub is_input : (Bytes → Units) → UnitDates → Engine → ExecutionInput → Bool
unfolding is_absolute_workdir has_exact_limits
is_input sha256_hex d engine i =
    leb 1 (length i.prompt)
    && leb (length i.prompt) engine_prompt_max_bytes
    && same engine.name i.engine
    && is_engine_name i.engine
    && is_safe_version i.engine_version
    && is_hash i.prompt_sha256
    && same (sha256_hex i.prompt) i.prompt_sha256
    && is_absolute_workdir i.workdir
    && is_canonical d i.deadline_at
    && has_exact_limits i.limits
    && leb engine_execution_timeout_min_ms i.timeout_ms
    && leb i.timeout_ms engine_execution_timeout_max_ms

-- A closed failure, at the second reading of the clock.
unfoldable pub settle :
    UnitDates
    → ExecutionError
    → ExecutionInput
    → FaultReason
    → Units
    → Units
    → Result ExecutionError ExecutionResult
unfolding checked_clock validated_engine_result empty_failure_result
settle d e input reason started_at second = do
  finished_at ← checked_clock d second
  validated_engine_result d e
      (result_value (empty_failure_result input reason started_at finished_at))

-- What is made of the engine's outcome.
unfoldable pub conclude :
    UnitDates
    → Engine
    → ExecutionInput
    → Units
    → Units
    → Outcome
    → Result ExecutionError ExecutionResult
unfolding settle validated_engine_result
conclude d engine input started_at second (faulted reason) =
    settle d fault_invalid input reason started_at second
conclude d engine input started_at second failed = err outside_fault_protocol
conclude d engine input started_at second (returned raw) = do
  result ← validated_engine_result d result_invalid raw
  reject_if
      (not (same result.engine engine.name)
        || not (same result.engine input.engine)
        || not (same result.engine_version input.engine_version))
      result_invalid
  ok result

-- `executeWithEngine`, with the hash of bytes, and the first and the second reading of the clock.
unfoldable pub execute_with_engine :
    (Bytes → Units)
    → UnitDates
    → Units
    → Units
    → Engine
    → ExecutionInput
    → Result ExecutionError ExecutionResult
unfolding is_input checked_clock settle conclude reject_if
execute_with_engine sha256_hex d first second engine input = do
  reject_if (not (is_input sha256_hex d engine input)) invalid_input
  started_at ← checked_clock d first
  if input.aborted
      then settle d cancellation_invalid input cancel_requested started_at second
      else conclude d engine input started_at second (engine.execute input)
