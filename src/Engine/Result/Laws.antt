-- ===== src/Engine/Result/Laws.antt =====
-- What a result that is parsed satisfies, and what is parsed again
-- (src/domain/runners/execution-engine.ts).
use nexusos_agentic.Base.{ℕ, ◌+◌, ◌≡◌, ◌≤◌, refl, true, false, some, length, leb, arith, ok}
use nexusos_agentic.Text.{units, push_units, lex_lt}
use nexusos_agentic.Json.{Units, text, lookup, same, has}
use nexusos_agentic.Workflow.Records.{
  UnitDates, is_canonical, is_hash, exact_record, matches, require, reject_if, guard,
}
use nexusos_agentic.Engine.Excerpts.{Bytes, engine_excerpt_max_bytes}
use nexusos_agentic.Engine.Base64.{decode_base64_url}
use nexusos_agentic.Engine.Contract.{
  engine_stdout_max_bytes, engine_stderr_max_bytes, engine_execution_statuses,
  engine_execution_reasons, one_of, is_engine_name, is_safe_version, is_summary, flag_of,
  exit_code_of, string_value,
}
use nexusos_agentic.Engine.Streams.{
  StreamReceipt, parse_stream_receipt, excerpt_size, receipt_value, count_within,
  is_receipt_consistent,
}
use nexusos_agentic.Engine.Result.{
  ExecutionResult, is_outcome_consistent, exceeds, parse_engine_execution_result, exit_code_value,
  result_value,
}

-- A well-formed receipt of a stream, with the bytes of its excerpt.
pub record IsReceipt (max : ℕ) (s : StreamReceipt) (excerpt : Bytes) : Type 0 where
  pub encoded : Units
  pub is_text : s.excerpt_base64_url ≡ text encoded
  pub decodes : decode_base64_url encoded ≡ some excerpt
  pub within : s.bytes ≤ max
  pub hash : is_hash s.sha256 ≡ true
  pub consistent : is_receipt_consistent s.bytes (length excerpt) s.sha256 s.truncated ≡ true

-- A well-formed result.
pub record IsResult (d : UnitDates) (r : ExecutionResult) : Type 0 where
  pub engine : is_engine_name r.engine ≡ true
  pub version : is_safe_version r.engine_version ≡ true
  pub status : one_of engine_execution_statuses r.status ≡ true
  pub reason : one_of engine_execution_reasons r.reason ≡ true
  pub started : is_canonical d r.started_at ≡ true
  pub finished : is_canonical d r.finished_at ≡ true
  pub in_order : lex_lt r.finished_at r.started_at ≡ false
  pub summary : is_summary r.summary ≡ true
  pub stdout_excerpt : Bytes
  pub stderr_excerpt : Bytes
  pub stdout : IsReceipt engine_stdout_max_bytes r.stdout stdout_excerpt
  pub stderr : IsReceipt engine_stderr_max_bytes r.stderr stderr_excerpt
  pub fits : length stdout_excerpt + length stderr_excerpt ≤ engine_excerpt_max_bytes
  pub exit_code : exit_code_of (some (exit_code_value r.exit_code)) ≡ some r.exit_code
  pub consistent : is_outcome_consistent r ≡ true

parse_stream_receipt-value :
    (max : ℕ) (s : StreamReceipt) (excerpt : Bytes)
    → IsReceipt max s excerpt
    → parse_stream_receipt max (some (receipt_value s)) ≡ some s
unfolding parse_stream_receipt guard exact_record matches count_within flag_of string_value has
    lookup same units push_units
parse_stream_receipt-value max s excerpt k =
    let small = k.within in
    let counted : leb s.bytes max ≡ true = ground arith in
    rw (k.is_text, counted, k.hash, k.decodes, k.consistent) refl

excerpt_size-receipt :
    (max : ℕ) (s : StreamReceipt) (excerpt : Bytes)
    → IsReceipt max s excerpt
    → excerpt_size s.excerpt_base64_url ≡ ok (some (length excerpt))
unfolding excerpt_size
excerpt_size-receipt max s excerpt k = rw (k.is_text, k.decodes) refl

-- A well-formed result that is written down is parsed as it was.
pub parse-result_value :
    (d : UnitDates) (r : ExecutionResult)
    → IsResult d r
    → parse_engine_execution_result d (result_value r) ≡ ok r
unfolding parse_engine_execution_result result_value require reject_if exact_record matches flag_of
    has lookup same units push_units
parse-result_value d r k =
    let small = k.fits in
    let within : exceeds engine_excerpt_max_bytes (some (length k.stdout_excerpt))
          (some (length k.stderr_excerpt))
        ≡ false =
      ground arith in
    rw
      (
        k.engine,
        k.version,
        k.status,
        k.reason,
        k.started,
        k.finished,
        k.in_order,
        k.summary,
        parse_stream_receipt-value engine_stdout_max_bytes r.stdout k.stdout_excerpt k.stdout,
        parse_stream_receipt-value engine_stderr_max_bytes r.stderr k.stderr_excerpt k.stderr,
        excerpt_size-receipt engine_stdout_max_bytes r.stdout k.stdout_excerpt k.stdout,
        excerpt_size-receipt engine_stderr_max_bytes r.stderr k.stderr_excerpt k.stderr,
        within,
        k.exit_code,
        k.consistent,
      )
      refl
