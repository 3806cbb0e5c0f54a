-- ===== src/Engine/Execute/Null.antt =====
-- An excerpt that is `null` (parseEngineExecutionResult of src/domain/runners/execution-engine.ts).
use nexusos_agentic.Base.{◌≡◌, refl, true, false, err}
use nexusos_agentic.Text.{units, push_units, lex_lt, fits}
use nexusos_agentic.Json.{Units, null, lookup, same, has}
use nexusos_agentic.Workflow.Records.{
  UnitDates, is_canonical, is_hash, exact_record, matches, guard, require, reject_if,
}
use nexusos_agentic.Engine.Base64.{decode_base64_url}
use nexusos_agentic.Engine.Contract.{
  is_engine_name, is_safe_version, empty_sha256, flag_of, string_value,
}
use nexusos_agentic.Engine.Streams.{
  StreamReceipt, threw, parse_stream_receipt, is_receipt_consistent, excerpt_size, count_within,
}
use nexusos_agentic.Engine.Result.{ExecutionResult, parse_engine_execution_result, result_value}
use nexusos_agentic.Engine.Execute.{FaultReason, ExecutionInput, empty_failure_result}
use nexusos_agentic.Engine.Execute.Faults.{
  reason_text-listed, reason_text-IsSummary, failure_status,
}

abbrev null_receipt : StreamReceipt
null_receipt = record {
  bytes = 0;
  excerpt_base64_url = null;
  sha256 = empty_sha256;
  truncated = false;
}

-- The result of a closed failure, but for a `null` as the excerpt of one stream.
abbrev pub with_null : ExecutionResult → ExecutionResult
with_null r = record r { stdout = null_receipt }

-- The result of a closed failure, with a `null` in place of the excerpt of its stdout, makes the
-- parser throw, where the parser is to return `undefined`.
pub null_excerpt_throws :
    (d : UnitDates) (i : ExecutionInput) (f : FaultReason) (started finished : Units)
    → is_engine_name i.engine ≡ true
    → is_safe_version i.engine_version ≡ true
    → is_canonical d started ≡ true
    → is_canonical d finished ≡ true
    → lex_lt finished started ≡ false
    → parse_engine_execution_result d
        (result_value (with_null (empty_failure_result i f started finished)))
      ≡ err threw
unfolding parse_engine_execution_result result_value empty_failure_result require reject_if
    exact_record matches flag_of has lookup same units push_units parse_stream_receipt
    is_receipt_consistent excerpt_size count_within string_value decode_base64_url guard is_hash
    fits
null_excerpt_throws d i f started finished n v s e o =
    rw (n, v, failure_status f, reason_text-listed f, s, e, o, reason_text-IsSummary f) refl
