-- ===== src/Runners/Lease/Tests.antt =====
-- Messages about a lease at concrete values.
use nexusos_agentic.Base.{◌≡◌, refl, some, arith}
use nexusos_agentic.Text.{units, push_units, fits}
use nexusos_agentic.Json.{Units, size, same, stringify}
use nexusos_agentic.Json.Read.{parse}
use nexusos_agentic.Json.RoundTrip.{parse-stringify}
use nexusos_agentic.Engine.Contract.{one_of}
use nexusos_agentic.Engine.Complete.{Codec, is_lease_id, is_operation_id}
use nexusos_agentic.Engine.Complete.RoundTrip.{ReadsBack}
use nexusos_agentic.Runners.Lease.{
  LeaseClaimBody, LeaseRenewBody, RunCompleteBody, is_outcome_summary, parse_lease_claim_body,
  parse_lease_renew_body, parse_run_complete_body, claim_value, renew_value, run_complete_value,
}
use nexusos_agentic.Runners.Lease.RoundTrip.{IsSent, lease_bodies-parsed}

abbrev codec : Codec
codec = record { decode = λ raw. some raw; encode = λ s. s; parse_json = λ s. parse 300 s }

abbrev lease : Units
lease = units "lse_00112233445566778899aabbccddeeff"

abbrev operation : Units
operation = units "op_00112233445566778899aabbccddeeff"

abbrev claim : LeaseClaimBody
claim = record { operation_id = operation }

abbrev renewal : LeaseRenewBody
renewal = record { fence = 12; lease_id = lease }

abbrev completion : RunCompleteBody
completion = record {
  fence = 12;
  lease_id = lease;
  operation_id = operation;
  outcome = record { status = units "failed"; summary = units "two tests \"red\"" };
}

claim-ReadsBack : ReadsBack codec (claim_value claim)
unfolding claim_value size units push_units
claim-ReadsBack = record {
  decoded = refl;
  parsed = parse-stringify 300 (claim_value claim) (omega arith);
}

renewal-ReadsBack : ReadsBack codec (renew_value renewal)
unfolding renew_value size units push_units
renewal-ReadsBack = record {
  decoded = refl;
  parsed = parse-stringify 300 (renew_value renewal) (omega arith);
}

completion-ReadsBack : ReadsBack codec (run_complete_value completion)
unfolding run_complete_value size units push_units
completion-ReadsBack = record {
  decoded = refl;
  parsed = parse-stringify 300 (run_complete_value completion) (omega arith);
}

all-IsSent : IsSent codec claim renewal completion
unfolding is_lease_id is_operation_id is_outcome_summary one_of fits same units push_units
all-IsSent = record {
  claim_operation = refl;
  renew_fence = (omega arith, omega arith);
  renew_lease = refl;
  completion = record {
    fence = (omega arith, omega arith);
    lease = refl;
    operation = refl;
    status = refl;
    summary = refl;
  };
  claim_reads = claim-ReadsBack;
  renew_reads = renewal-ReadsBack;
  complete_reads = completion-ReadsBack;
}

lease_bodies-parsed_example :
    (parse_lease_claim_body codec (stringify (claim_value claim)) ≡ some claim)
    × (parse_lease_renew_body codec (stringify (renew_value renewal)) ≡ some renewal)
    × (parse_run_complete_body codec (stringify (run_complete_value completion)) ≡ some completion)
lease_bodies-parsed_example = lease_bodies-parsed codec claim renewal completion all-IsSent
