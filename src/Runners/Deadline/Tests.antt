-- ===== src/Runners/Deadline/Tests.antt =====
-- Deadlines and retention at concrete runs.
use nexusos_agentic.Base.{ℕ, ◌≡◌, ◌≤◌, ◌↔◌, refl, String, true, Option, some, includes, ok, err}
use nexusos_agentic.Runtime.{iso_round_trip, iso_before}
use nexusos_agentic.Samples.{
  dates, instant_of, text_of, midnight, ten_past, thirty_days, dates-HasRoundTrip,
}
use nexusos_agentic.Text.{units, push_units, lex_lt, is_timestamp_shape}
use nexusos_agentic.Json.{stringify, quote, digits}
use nexusos_agentic.Governance.Canonical.{canonical_json, array_index}
use nexusos_agentic.Runners.Basics.{is_canonical_timestamp, is_prefixed_id}
use nexusos_agentic.Runners.Deadline.{
  deadline_operation_id, prompt_retention_cutoff, assert_canonical_timestamp,
  is_prompt_retention_eligible, terminal_statuses, DeadlineRaceSnapshot, deadline_health_cutoff,
  invalid_run_id, invalid_timestamp, invalid_date, deadline_expiry_metadata,
}
use nexusos_agentic.Runners.Deadline.Payload.{
  canonical_deadline_expiry_metadata, deadline_ledger_payload,
}
use nexusos_agentic.Runners.Deadline.Laws.{eligible_iff_cutoff}

health_cutoff : deadline_health_cutoff dates ten_past ≡ ok midnight
unfolding deadline_health_cutoff assert_canonical_timestamp is_canonical_timestamp iso_round_trip
    iso_before is_timestamp_shape instant_of text_of
health_cutoff = refl

retention_cutoff : prompt_retention_cutoff dates thirty_days ≡ ok midnight
unfolding prompt_retention_cutoff assert_canonical_timestamp is_canonical_timestamp iso_round_trip
    iso_before is_timestamp_shape instant_of text_of
retention_cutoff = refl

midnight_canonical : is_canonical_timestamp dates midnight ≡ true
unfolding is_canonical_timestamp iso_round_trip is_timestamp_shape instant_of text_of
midnight_canonical = refl

eligible_iff_cutoff_example :
    (is_prompt_retention_eligible dates thirty_days midnight "completed" ≡ ok true) ↔ (
      (includes terminal_statuses "completed" ≡ true)
      × ((r : ℕ) × (last : ℕ) × (dates.parse midnight ≡ some r)
          × (dates.parse midnight ≡ some last)
          × (r ≤ last)))
eligible_iff_cutoff_example =
    eligible_iff_cutoff dates thirty_days midnight midnight "completed" dates-HasRoundTrip
      midnight_canonical retention_cutoff

abbrev run_id : String
run_id = "run_0123456789abcdef0123456789abcdef"

run_id_operation : deadline_operation_id run_id ≡ ok "op_0123456789abcdef0123456789abcdef"
unfolding deadline_operation_id is_prefixed_id
run_id_operation = refl

abbrev overdue : DeadlineRaceSnapshot
overdue = record { status = "leased"; version = 3; deadline_at = midnight }

abbrev met : Option DeadlineRaceSnapshot
met = some overdue

metadata_of_sample :
    canonical_deadline_expiry_metadata dates run_id midnight
    ≡ ok (
        units (
          "{\"deadlineAt\":\"2026-01-01T00:00:00.000Z\",\"operationId\":\"op_0123456789abcdef0123456789abcdef\",\"reason\":\"engine_deadline_exhausted\"}"))
unfolding canonical_deadline_expiry_metadata deadline_expiry_metadata assert_canonical_timestamp
    deadline_operation_id is_prefixed_id is_canonical_timestamp iso_round_trip is_timestamp_shape
    instant_of text_of canonical_json stringify quote digits array_index push_units units lex_lt
metadata_of_sample = refl

payload_of_bad_id : deadline_ledger_payload dates "run_1" midnight ≡ err invalid_run_id
unfolding deadline_ledger_payload deadline_expiry_metadata assert_canonical_timestamp
    deadline_operation_id is_prefixed_id is_canonical_timestamp iso_round_trip is_timestamp_shape
    instant_of text_of
payload_of_bad_id = refl

payload_of_bad_time : deadline_ledger_payload dates run_id "soon" ≡ err invalid_timestamp
unfolding deadline_ledger_payload deadline_expiry_metadata assert_canonical_timestamp
    is_canonical_timestamp iso_round_trip is_timestamp_shape instant_of text_of
payload_of_bad_time = refl

-- A text of the right shape that is no date.
no_such_day : assert_canonical_timestamp dates "2026-02-31T00:00:00.000Z" ≡ err invalid_date
unfolding assert_canonical_timestamp is_timestamp_shape instant_of
no_such_day = refl
