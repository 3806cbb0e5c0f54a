-- ===== src/Runners/Lease.antt =====
-- The bodies that a runner sends about a lease (src/domain/runners/lease-protocol.ts).
pub mod RoundTrip
pub mod Tests
use nexusos_agentic.Base.{
  ℕ, Bool, true, false, not, ◌&&◌, ◌||◌, ◌==◌, Option, none, some, List, [], ◌∷◌, any, length, leb,
  if◌then◌else◌,
}
use nexusos_agentic.Text.{units}
use nexusos_agentic.Json.{
  Units, Value, Fields, text, number, object, field, end, lookup, field_count, same,
}
use nexusos_agentic.Json.Read.{◌>>=◌}
use nexusos_agentic.Governance.Canonical.{canonical_json}
use nexusos_agentic.Artifacts.{byte_size}
use nexusos_agentic.Workflow.Records.{matches, guard}
use nexusos_agentic.Engine.Excerpts.{Bytes}
use nexusos_agentic.Engine.Complete.{Codec, is_lease_id, is_operation_id, fence_of}
use nexusos_agentic.Engine.Contract.{one_of}

pub record LeaseClaimBody : Type 0 where
  pub operation_id : Units

pub record LeaseRenewBody : Type 0 where
  pub fence : ℕ
  pub lease_id : Units

pub record RunOutcome : Type 0 where
  pub status : Units
  pub summary : Units

pub record RunCompleteBody : Type 0 where
  pub fence : ℕ
  pub lease_id : Units
  pub operation_id : Units
  pub outcome : RunOutcome

abbrev pub outcome_summary_max_bytes : ℕ
outcome_summary_max_bytes = 1024

abbrev pub run_outcome_statuses : List Units
run_outcome_statuses = units "succeeded" ∷ units "failed" ∷ units "canceled" ∷ []

-- `plainRecord`.
abbrev pub fields_of : Option Value → Option Fields
fields_of (some (object fs)) = some fs
fields_of _ = none

-- `parseCanonicalRecord`: the fields of an object whose text is canonical.
unfoldable pub parse_canonical_record : Codec → Bytes → Option Fields
unfolding guard same
parse_canonical_record c raw = do
  s ← c.decode raw
  value ← c.parse_json s
  fs ← fields_of (some value)
  _ ← guard (same (canonical_json value) s)
  some fs

unfoldable pub parse_lease_claim_body : Codec → Bytes → Option LeaseClaimBody
unfolding parse_canonical_record matches guard
parse_lease_claim_body c raw = do
  fs ← parse_canonical_record c raw
  _ ← guard (field_count fs == 1)
  operation_id ← matches is_operation_id (lookup (units "operationId") fs)
  some (record { operation_id = operation_id })

unfoldable pub parse_lease_renew_body : Codec → Bytes → Option LeaseRenewBody
unfolding parse_canonical_record matches guard
parse_lease_renew_body c raw = do
  fs ← parse_canonical_record c raw
  _ ← guard (field_count fs == 2)
  fence ← fence_of (lookup (units "fence") fs)
  lease_id ← matches is_lease_id (lookup (units "leaseId") fs)
  some (record { fence = fence; lease_id = lease_id })

-- A summary is not empty, and has at most 1024 bytes in UTF-8.
unfoldable pub is_outcome_summary : Units → Bool
unfolding byte_size
is_outcome_summary s = leb 1 (length s) && leb (byte_size false s) outcome_summary_max_bytes

unfoldable pub parse_outcome : Option Value → Option RunOutcome
unfolding matches guard one_of
parse_outcome o = do
  fs ← fields_of o
  _ ← guard (field_count fs == 2)
  status ← matches (one_of run_outcome_statuses) (lookup (units "status") fs)
  summary ← matches is_outcome_summary (lookup (units "summary") fs)
  some (record { status = status; summary = summary })

unfoldable pub parse_run_complete_body : Codec → Bytes → Option RunCompleteBody
unfolding parse_canonical_record matches guard parse_outcome
parse_run_complete_body c raw = do
  fs ← parse_canonical_record c raw
  _ ← guard (field_count fs == 4)
  fence ← fence_of (lookup (units "fence") fs)
  lease_id ← matches is_lease_id (lookup (units "leaseId") fs)
  operation_id ← matches is_operation_id (lookup (units "operationId") fs)
  outcome ← parse_outcome (lookup (units "outcome") fs)
  some (record {
    fence = fence;
    lease_id = lease_id;
    operation_id = operation_id;
    outcome = outcome;
  })

unfoldable pub claim_value : LeaseClaimBody → Value
claim_value b = object (field (units "operationId") (text b.operation_id) end)

unfoldable pub renew_value : LeaseRenewBody → Value
renew_value b =
    object (field (units "fence") (number b.fence) (field (units "leaseId") (text b.lease_id) end))

abbrev pub outcome_value : RunOutcome → Value
outcome_value o =
    object (field (units "status") (text o.status) (field (units "summary") (text o.summary) end))

unfoldable pub run_complete_value : RunCompleteBody → Value
run_complete_value b = object (
    field (units "fence") (number b.fence) (
      field (units "leaseId") (text b.lease_id) (
        field (units "operationId") (text b.operation_id)
          (field (units "outcome") (outcome_value b.outcome) end))))
