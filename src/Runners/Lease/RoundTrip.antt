-- ===== src/Runners/Lease/RoundTrip.antt =====
-- Bodies that a runner sends are parsed as they were (src/domain/runners/lease-protocol.ts).
use nexusos_agentic.Base.{◌≡◌, ◌≤◌, refl, true, some}
use nexusos_agentic.Text.{units, push_units, lex_lt}
use nexusos_agentic.Json.{Fields, object, lookup, same, has, stringify}
use nexusos_agentic.Governance.Canonical.{canonical_json, normalize, array_index}
use nexusos_agentic.Governance.Canonical.Laws.{same_iff}
use nexusos_agentic.Workflow.Records.{matches, guard}
use nexusos_agentic.Engine.Contract.{one_of, max_fence}
use nexusos_agentic.Engine.Complete.{Codec, is_lease_id, is_operation_id}
use nexusos_agentic.Engine.Complete.RoundTrip.{ReadsBack, fence_of-number}
use nexusos_agentic.Runners.Lease.{
  LeaseClaimBody, LeaseRenewBody, RunCompleteBody, run_outcome_statuses, is_outcome_summary,
  parse_canonical_record, parse_lease_claim_body, parse_lease_renew_body, parse_outcome,
  parse_run_complete_body, claim_value, renew_value, run_complete_value,
}

-- A value whose keys are in order is read from the bytes of its text.
canonical_record-value :
    (c : Codec) (fs : Fields)
    → normalize (object fs) ≡ object fs
    → ReadsBack c (object fs)
    → parse_canonical_record c (c.encode (stringify (object fs))) ≡ some fs
unfolding parse_canonical_record guard canonical_json
canonical_record-value c fs normal reads =
    let s = stringify (object fs) in
    rw (reads.decoded, reads.parsed, normal, (same_iff s s).1 refl) refl

-- A completion that a runner may send.
pub record IsRunComplete (b : RunCompleteBody) : Type 0 where
  pub fence : (1 ≤ b.fence) × (b.fence ≤ max_fence)
  pub lease : is_lease_id b.lease_id ≡ true
  pub operation : is_operation_id b.operation_id ≡ true
  pub status : one_of run_outcome_statuses b.outcome.status ≡ true
  pub summary : is_outcome_summary b.outcome.summary ≡ true

claim-parsed :
    (c : Codec) (b : LeaseClaimBody)
    → is_operation_id b.operation_id ≡ true
    → ReadsBack c (claim_value b)
    → parse_lease_claim_body c (c.encode (stringify (claim_value b))) ≡ some b
unfolding parse_lease_claim_body claim_value guard matches lookup same normalize array_index units
    push_units
claim-parsed c b is reads = rw (canonical_record-value c _ refl reads, is) refl

renew-parsed :
    (c : Codec) (b : LeaseRenewBody)
    → 1 ≤ b.fence
    → b.fence ≤ max_fence
    → is_lease_id b.lease_id ≡ true
    → ReadsBack c (renew_value b)
    → parse_lease_renew_body c (c.encode (stringify (renew_value b))) ≡ some b
unfolding parse_lease_renew_body renew_value guard matches lookup same normalize array_index units
    push_units lex_lt has
renew-parsed c b low high is reads =
    rw (canonical_record-value c _ refl reads, fence_of-number b.fence low high, is) refl

complete-parsed :
    (c : Codec) (b : RunCompleteBody)
    → IsRunComplete b
    → ReadsBack c (run_complete_value b)
    → parse_run_complete_body c (c.encode (stringify (run_complete_value b))) ≡ some b
unfolding parse_run_complete_body parse_outcome run_complete_value guard matches lookup same
    normalize array_index units push_units lex_lt has
complete-parsed c b k reads =
    rw
      (
        canonical_record-value c _ refl reads,
        fence_of-number b.fence k.fence.0 k.fence.1,
        k.lease,
        k.operation,
        k.status,
        k.summary,
      )
      refl

-- Messages that a runner may send, in an encoding that is read back.
pub record IsSent (c : Codec) (claim : LeaseClaimBody) (renew : LeaseRenewBody)
    (complete : RunCompleteBody) : Type 0 where
  pub claim_operation : is_operation_id claim.operation_id ≡ true
  pub renew_fence : (1 ≤ renew.fence) × (renew.fence ≤ max_fence)
  pub renew_lease : is_lease_id renew.lease_id ≡ true
  pub completion : IsRunComplete complete
  pub claim_reads : ReadsBack c (claim_value claim)
  pub renew_reads : ReadsBack c (renew_value renew)
  pub complete_reads : ReadsBack c (run_complete_value complete)

-- A claim, a renewal and a completion with well-formed ids, fences and outcome are parsed from the
-- bytes of their canonical texts as they were.
pub lease_bodies-parsed :
    (c : Codec) (claim : LeaseClaimBody) (renew : LeaseRenewBody) (complete : RunCompleteBody)
    → IsSent c claim renew complete
    → (parse_lease_claim_body c (c.encode (stringify (claim_value claim))) ≡ some claim)
      × (parse_lease_renew_body c (c.encode (stringify (renew_value renew))) ≡ some renew)
      × (parse_run_complete_body c (c.encode (stringify (run_complete_value complete)))
          ≡ some complete)
lease_bodies-parsed c claim renew complete k = (
  claim-parsed c claim k.claim_operation k.claim_reads,
  renew-parsed c renew k.renew_fence.0 k.renew_fence.1 k.renew_lease k.renew_reads,
  complete-parsed c complete k.completion k.complete_reads,
)
