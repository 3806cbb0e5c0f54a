-- ===== src/Engine/Complete.antt =====
-- The body that completes an engine's run: parseEngineCompleteBody and canonicalEngineCompleteBody of
-- src/domain/runners/execution-engine.ts.
pub mod RoundTrip
use nexusos_agentic.Base.{
  ℕ, Bool, true, false, not, ◌&&◌, ◌||◌, ◌==◌, Option, none, some, List, [], ◌∷◌, ◌++◌, length, ltb,
  leb, if◌then◌else◌, Result, ok, err, ◌>>=◌, ◌>>◌,
}
use nexusos_agentic.Text.{units, hex, fits, times, is_char}
use nexusos_agentic.Json.{Units, Value, text, number, object, field, end, lookup, same}
use nexusos_agentic.Governance.Canonical.{canonical_json}
use nexusos_agentic.Workflow.Records.{UnitDates, exact_record, matches, require, reject_if}
use nexusos_agentic.Engine.Excerpts.{Bytes}
use nexusos_agentic.Engine.Contract.{engine_completion_max_bytes, max_fence}
use nexusos_agentic.Engine.Streams.{ParseFailure, rejected, threw}
use nexusos_agentic.Engine.Result.{ExecutionResult, parse_engine_execution_result, result_value}

-- What the runtime does with bytes and texts: TextDecoder (fatal, with the byte order mark kept),
-- TextEncoder, and JSON.parse; `none` is an error that they throw.
pub record Codec : Type 0 where
  pub decode : Bytes → Option Units
  pub encode : Units → Bytes
  pub parse_json : Units → Option Value

pub record CompleteBody : Type 0 where
  pub fence : ℕ
  pub lease_id : Units
  pub operation_id : Units
  pub receipt : ExecutionResult

abbrev pub body_keys : List Units
body_keys = units "fence" ∷ units "leaseId" ∷ units "operationId" ∷ units "receipt" ∷ []

-- `LEASE_ID_PATTERN`: `/^lse_[0-9a-f]{32}$/u`.
unfoldable pub is_lease_id : Units → Bool
unfolding fits
is_lease_id s = fits (is_char b'l' ∷ is_char b's' ∷ is_char b'e' ∷ is_char b'_' ∷ times 32 hex) s

-- `OPERATION_ID_PATTERN`: `/^op_[0-9a-f]{32}$/u`.
unfoldable pub is_operation_id : Units → Bool
unfolding fits
is_operation_id s = fits (is_char b'o' ∷ is_char b'p' ∷ is_char b'_' ∷ times 32 hex) s

-- `isFence`.
unfoldable pub fence_of : Option Value → Option ℕ
fence_of (some (number n)) = if leb 1 n && leb n max_fence then some n else none
fence_of _ = none

abbrev pub receipt_of : UnitDates → Option Value → Result ParseFailure ExecutionResult
receipt_of d none = err rejected
receipt_of d (some v) = parse_engine_execution_result d v

unfoldable pub parse_engine_complete_body :
    Codec → UnitDates → Bytes → Result ParseFailure CompleteBody
unfolding require reject_if exact_record matches fence_of
parse_engine_complete_body c d raw = do
  reject_if (ltb (length raw) 1 || ltb engine_completion_max_bytes (length raw)) rejected
  s ← require rejected (c.decode raw)
  value ← require rejected (c.parse_json s)
  fs ← require rejected (exact_record body_keys value)
  fence ← require rejected (fence_of (lookup (units "fence") fs))
  lease_id ← require rejected (matches is_lease_id (lookup (units "leaseId") fs))
  operation_id ← require rejected (matches is_operation_id (lookup (units "operationId") fs))
  receipt ← receipt_of d (lookup (units "receipt") fs)
  reject_if (not (same (canonical_json value) s)) rejected
  ok (record { fence = fence; lease_id = lease_id; operation_id = operation_id; receipt = receipt })

unfoldable pub body_value : CompleteBody → Value
unfolding result_value
body_value b = object (
    field (units "fence") (number b.fence) (
      field (units "leaseId") (text b.lease_id) (
        field (units "operationId") (text b.operation_id)
          (field (units "receipt") (result_value b.receipt) end))))

-- The body that is parsed must be there; a failure of the parse is a TypeError either way.
abbrev pub text_if_parsed : Units → Result ParseFailure CompleteBody → Option Units
text_if_parsed s (ok b) = some s
text_if_parsed s (err e) = none

unfoldable pub canonical_engine_complete_body : Codec → UnitDates → CompleteBody → Option Units
unfolding parse_engine_complete_body body_value
canonical_engine_complete_body c d b =
    text_if_parsed (canonical_json (body_value b))
      (parse_engine_complete_body c d (c.encode (canonical_json (body_value b))))
