-- ===== src/Engine/Result.antt =====
-- The result of an execution: parseEngineExecutionResult and isOutcomeConsistent of
-- src/domain/runners/execution-engine.ts.
pub mod Laws
pub mod Parts
pub mod Sound
pub mod Framed
use nexusos_agentic.Base.{
  ℕ, ◌+◌, Bool, true, false, not, ◌&&◌, ◌||◌, ◌==◌, Option, none, some, List, [], ◌∷◌, ltb, leb,
  if◌then◌else◌, Result, ok, err, ◌>>=◌, ◌>>◌,
}
use nexusos_agentic.Text.{units, lex_lt}
use nexusos_agentic.Json.{Units, Value, text, number, null, bool, object, field, end, lookup, same}
use nexusos_agentic.Workflow.Records.{
  UnitDates, is_canonical, exact_record, matches, require, reject_if,
}
use nexusos_agentic.Engine.Excerpts.{engine_excerpt_max_bytes}
use nexusos_agentic.Engine.Contract.{
  engine_stdout_max_bytes, engine_stderr_max_bytes, engine_execution_statuses,
  engine_execution_reasons, one_of, is_engine_name, is_safe_version, is_summary, flag_of,
  exit_code_of,
}
use nexusos_agentic.Engine.Streams.{
  StreamReceipt, ParseFailure, rejected, parse_stream_receipt, excerpt_size, receipt_value,
}

-- `EngineExecutionResult`.
pub record ExecutionResult : Type 0 where
  pub cancel_requested : Bool
  pub engine : Units
  pub engine_version : Units
  pub exit_code : Option ℕ
  pub finished_at : Units
  pub reason : Units
  pub started_at : Units
  pub status : Units
  pub stderr : StreamReceipt
  pub stdout : StreamReceipt
  pub summary : Units
  pub timed_out : Bool

abbrev pub result_keys : List Units
result_keys =
    units "cancelRequested"
    ∷ units "engine"
    ∷ units "engineVersion"
    ∷ units "exitCode"
    ∷ units "finishedAt"
    ∷ units "reason"
    ∷ units "startedAt"
    ∷ units "status"
    ∷ units "stderr"
    ∷ units "stdout"
    ∷ units "summary"
    ∷ units "timedOut"
    ∷ []

abbrev pub exit_is : ℕ → Option ℕ → Bool
exit_is n none = false
exit_is n (some m) = m == n

abbrev pub is_null : Option ℕ → Bool
is_null none = true
is_null (some n) = false

-- `Number.isInteger(exitCode) && exitCode >= 1`.
abbrev pub is_nonzero : Option ℕ → Bool
is_nonzero none = false
is_nonzero (some n) = leb 1 n

abbrev pub is_full : ℕ → StreamReceipt → Bool
is_full max s = s.bytes == max && s.truncated

abbrev pub is_success : ExecutionResult → Bool
is_success r =
    same r.reason (units "none")
    && exit_is 0 r.exit_code
    && not r.timed_out
    && not r.cancel_requested
    && same r.summary (units "completed")

abbrev pub is_cancellation : ExecutionResult → Bool
is_cancellation r =
    same r.reason (units "cancel_requested")
    && is_null r.exit_code
    && r.cancel_requested
    && same r.summary (units "cancel_requested")

abbrev pub is_failure : ExecutionResult → Bool
is_failure r =
    same r.status (units "failed")
    && not (same r.reason (units "none"))
    && not (same r.reason (units "cancel_requested"))
    && (not (same r.reason (units "timed_out")) || r.timed_out)
    && same r.summary r.reason
    && (if same r.reason (units "engine_exit_nonzero")
        then is_nonzero r.exit_code
        else is_null r.exit_code)
    && (not (same r.reason (units "output_limit_reached"))
        || is_full engine_stdout_max_bytes r.stdout
        || is_full engine_stderr_max_bytes r.stderr)

unfoldable pub is_outcome_consistent : ExecutionResult → Bool
unfolding same
is_outcome_consistent r =
    if same r.status (units "succeeded")
    then is_success r
    else if same r.status (units "canceled")
    then is_cancellation r
    else is_failure r

-- The sum of the sizes is above the limit; a size of `none` is Infinity.
abbrev pub exceeds : ℕ → Option ℕ → Option ℕ → Bool
exceeds limit (some a) (some b) = ltb limit (a + b)
exceeds limit _ _ = true

unfoldable pub parse_engine_execution_result :
    UnitDates → Value → Result ParseFailure ExecutionResult
unfolding exact_record matches require reject_if parse_stream_receipt excerpt_size
    is_outcome_consistent
parse_engine_execution_result d input = do
  fs ← require rejected (exact_record result_keys input)
  engine ← require rejected (matches is_engine_name (lookup (units "engine") fs))
  engine_version ← require rejected (matches is_safe_version (lookup (units "engineVersion") fs))
  status ←
      require rejected (matches (one_of engine_execution_statuses) (lookup (units "status") fs))
  reason ← require rejected (matches (one_of engine_execution_reasons) (lookup (units "reason") fs))
  cancel_requested ← require rejected (flag_of (lookup (units "cancelRequested") fs))
  timed_out ← require rejected (flag_of (lookup (units "timedOut") fs))
  started_at ← require rejected (matches (is_canonical d) (lookup (units "startedAt") fs))
  finished_at ← require rejected (matches (is_canonical d) (lookup (units "finishedAt") fs))
  reject_if (lex_lt finished_at started_at) rejected
  summary ← require rejected (matches is_summary (lookup (units "summary") fs))
  stdout ←
      require rejected (parse_stream_receipt engine_stdout_max_bytes (lookup (units "stdout") fs))
  stderr ←
      require rejected (parse_stream_receipt engine_stderr_max_bytes (lookup (units "stderr") fs))
  stdout_size ← excerpt_size stdout.excerpt_base64_url
  stderr_size ← excerpt_size stderr.excerpt_base64_url
  reject_if (exceeds engine_excerpt_max_bytes stdout_size stderr_size) rejected
  exit_code ← require rejected (exit_code_of (lookup (units "exitCode") fs))
  let result : ExecutionResult = record {
    cancel_requested = cancel_requested;
    engine = engine;
    engine_version = engine_version;
    exit_code = exit_code;
    finished_at = finished_at;
    reason = reason;
    started_at = started_at;
    status = status;
    stderr = stderr;
    stdout = stdout;
    summary = summary;
    timed_out = timed_out;
  }
  reject_if (not (is_outcome_consistent result)) rejected
  ok result

abbrev pub exit_code_value : Option ℕ → Value
exit_code_value none = null
exit_code_value (some n) = number n

-- A result as the value that is sent.
unfoldable pub result_value : ExecutionResult → Value
result_value r = object (
    field (units "cancelRequested") (bool r.cancel_requested) (
      field (units "engine") (text r.engine) (
        field (units "engineVersion") (text r.engine_version) (
          field (units "exitCode") (exit_code_value r.exit_code) (
            field (units "finishedAt") (text r.finished_at) (
              field (units "reason") (text r.reason) (
                field (units "startedAt") (text r.started_at) (
                  field (units "status") (text r.status) (
                    field (units "stderr") (receipt_value r.stderr) (
                      field (units "stdout") (receipt_value r.stdout) (
                        field (units "summary") (text r.summary)
                          (field (units "timedOut") (bool r.timed_out) end))))))))))))
