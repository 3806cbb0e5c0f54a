-- ===== src/Runners/Deadline/Payload.antt =====
-- What a run's expiry leaves in the ledger: canonicalDeadlineExpiryMetadata and
-- deadlineLedgerPayload of src/domain/runners/deadline-reconciliation.ts.
use nexusos_agentic.Base.{String, Result, ok, ◌>>=◌}
use nexusos_agentic.Runtime.{Dates}
use nexusos_agentic.Text.{units}
use nexusos_agentic.Json.{Units, Fields, text, object, end, field}
use nexusos_agentic.Governance.Canonical.{canonical_json}
use nexusos_agentic.Runners.Deadline.{
  DeadlineError, DeadlineExpiryMetadata, deadline_expiry_metadata,
}

abbrev engine_deadline_reason : String
engine_deadline_reason = "engine_deadline_exhausted"

-- The object's properties, in the order of the literal, before those of `rest`.
unfoldable metadata_fields : DeadlineExpiryMetadata → Fields → Fields
metadata_fields m rest = field (units "deadlineAt") (text (units m.deadline_at)) (
    field (units "operationId") (text (units m.operation_id))
      (field (units "reason") (text (units engine_deadline_reason)) rest))

unfoldable pub canonical_deadline_expiry_metadata :
    Dates → String → String → Result DeadlineError Units
unfolding metadata_fields
canonical_deadline_expiry_metadata d run_id deadline_at = do
  m ← deadline_expiry_metadata d run_id deadline_at
  ok (canonical_json (object (metadata_fields m end)))

unfoldable pub deadline_ledger_payload : Dates → String → String → Result DeadlineError Fields
unfolding metadata_fields
deadline_ledger_payload d run_id deadline_at = do
  m ← deadline_expiry_metadata d run_id deadline_at
  ok (metadata_fields m (field (units "runId") (text (units run_id)) end))
