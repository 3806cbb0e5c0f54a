-- ===== src/Runners/Deadline.antt =====
-- Deadlines of runs and the retention of prompts (isRunDeadlineExpired of
-- src/domain/runners/lease-protocol.ts, src/domain/runners/deadline-reconciliation.ts and
-- src/domain/runners/prompt-retention.ts).
pub mod Laws
pub mod Payload
pub mod Tests
use Prim.Native.String
use nexusos_agentic.Base.{
  ℕ, zero, suc, ◌+◌, ◌-◌, String, Bool, true, false, not, ◌&&◌, ◌||◌, Option, none, some, List, [],
  ◌∷◌, ◌==◌, leb, includes, if◌then◌else◌, Result, ok, err, ◌>>=◌, ◌>>◌, throw_if,
}
use nexusos_agentic.Runtime.{Dates, iso_before}
use nexusos_agentic.Text.{str_lt, str_le, is_timestamp_shape}
use nexusos_agentic.Runners.Basics.{is_canonical_timestamp, is_run_id}

pub data RunStatus : Type 0 where
  queued leased completed canceled : RunStatus

abbrev pub is_open : RunStatus → Bool
is_open queued = true
is_open leased = true
is_open _ = false

-- The deadline and the time are compared as texts.
unfoldable pub is_run_deadline_expired : RunStatus → String → String → Bool
unfolding str_le
is_run_deadline_expired status deadline_at now = is_open status && str_le deadline_at now

-- The `TypeError` of a bad argument, and the `RangeError` of an instant outside a `Date`.
pub data DeadlineError : Type 0 where
  invalid_run_id invalid_timestamp invalid_date : DeadlineError

-- `new Date(value).toISOString()` throws.
unfoldable pub is_invalid_date : Dates → String → Bool
is_invalid_date d value = elim (d.parse value) [
  | none ↦ true
  | some ms ↦ elim (d.to_iso ms) [ none ↦ true | some s ↦ false ]
]

-- The shape is asked for first; a text of that shape may still be of no date.
unfoldable pub assert_canonical_timestamp : Dates → String → Result DeadlineError (Unit {0})
unfolding is_invalid_date
assert_canonical_timestamp d value =
    if not (is_timestamp_shape value)
    then err invalid_timestamp
    else if is_invalid_date d value
    then err invalid_date
    else throw_if (not (is_canonical_timestamp d value)) invalid_timestamp

-- `s.slice(n)` of a text of single units.
unfoldable pub slice_from : ℕ → String → String
slice_from zero s = s
slice_from (suc n) String.[] = String.[]
slice_from (suc n) (String.◌∷◌ c s) = slice_from n s

-- `op_${runId.slice(4)}`.
unfoldable pub deadline_operation_id : String → Result DeadlineError String
unfolding slice_from
deadline_operation_id run_id =
    if is_run_id run_id
    then ok (String.◌∷◌ "o" (String.◌∷◌ "p" (String.◌∷◌ "_" (slice_from 4 run_id))))
    else err invalid_run_id

pub record DeadlineExpiryMetadata : Type 0 where
  pub deadline_at : String
  pub operation_id : String

-- `reason` is the constant `engine_deadline_exhausted`.
unfoldable pub deadline_expiry_metadata :
    Dates → String → String → Result DeadlineError DeadlineExpiryMetadata
unfolding assert_canonical_timestamp deadline_operation_id
deadline_expiry_metadata d run_id deadline_at = do
  assert_canonical_timestamp d deadline_at
  id ← deadline_operation_id run_id
  ok (record { deadline_at = deadline_at; operation_id = id })

abbrev pub deadline_health_grace_ms : ℕ
deadline_health_grace_ms = 600000

abbrev pub prompt_retention_ms : ℕ
prompt_retention_ms = 2592000000

-- `new Date(Date.parse(now) - span).toISOString()` of a timestamp that was asserted canonical.
unfoldable pub cutoff : Dates → ℕ → String → Result DeadlineError String
unfolding assert_canonical_timestamp
cutoff d span now = do
  assert_canonical_timestamp d now
  elim (d.parse now) [
    | none ↦ err invalid_date
    | some ms ↦ elim (iso_before d ms span) [ none ↦ err invalid_date | some s ↦ ok s ]
  ]

unfoldable pub deadline_health_cutoff : Dates → String → Result DeadlineError String
unfolding cutoff
deadline_health_cutoff d now = cutoff d deadline_health_grace_ms now

unfoldable pub prompt_retention_cutoff : Dates → String → Result DeadlineError String
unfolding cutoff
prompt_retention_cutoff d now = cutoff d prompt_retention_ms now

unfoldable pub prompt_retention_health_cutoff : Dates → String → Result DeadlineError String
unfolding cutoff
prompt_retention_health_cutoff d now = cutoff d (prompt_retention_ms + deadline_health_grace_ms) now

pub record DeadlineRaceSnapshot : Type 0 where
  pub status : String
  pub version : ℕ
  pub deadline_at : String

unfoldable pub is_race : ℕ → String → Option DeadlineRaceSnapshot → Bool
unfolding str_lt
is_race candidate_version observed_at none = false
is_race candidate_version observed_at (some current) =
    if not (includes ("queued" ∷ "leased" ∷ []) current.status)
    then true
    else if not (current.version == candidate_version)
    then true
    else str_lt observed_at current.deadline_at

unfoldable pub is_benign_deadline_race :
    Dates → ℕ → String → Option DeadlineRaceSnapshot → Result DeadlineError Bool
unfolding assert_canonical_timestamp is_race
is_benign_deadline_race d candidate_version observed_at current = do
  assert_canonical_timestamp d observed_at
  ok (is_race candidate_version observed_at current)

abbrev pub terminal_statuses : List String
terminal_statuses = "completed" ∷ "canceled" ∷ "expired" ∷ []

-- `Date.parse(observedAt) - Date.parse(recordedAt) >= PROMPT_RETENTION_MS`; NaN is not.
abbrev pub is_older_by : ℕ → Option ℕ → Option ℕ → Bool
is_older_by span (some observed) (some recorded) = leb (recorded + span) observed
is_older_by span _ _ = false

unfoldable pub is_prompt_retention_eligible :
    Dates → String → String → String → Result DeadlineError Bool
unfolding assert_canonical_timestamp
is_prompt_retention_eligible d observed_at recorded_at status = do
  assert_canonical_timestamp d observed_at
  assert_canonical_timestamp d recorded_at
  ok (
      includes terminal_statuses status
      && is_older_by prompt_retention_ms (d.parse observed_at) (d.parse recorded_at))
