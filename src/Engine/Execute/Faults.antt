-- ===== src/Engine/Execute/Faults.antt =====
-- Closed faults: emptyFailureResult and the paths of executeWithEngine that settle with it
-- (src/domain/runners/execution-engine.ts).
use nexusos_agentic.Base.{
  ℕ, ◌≡◌, refl, Bool, true, false, [], arith, if◌then◌else◌, ok, err, Bool-cases, ◌⊎◌, inl, inr,
}
use nexusos_agentic.Text.{units, push_units, lex_lt, fits}
use nexusos_agentic.Json.{Units, lookup, same, has}
use nexusos_agentic.Workflow.Records.{
  UnitDates, is_canonical, is_hash, exact_record, matches, require, reject_if,
}
use nexusos_agentic.Artifacts.{byte_size}
use nexusos_agentic.Engine.Excerpts.{Bytes}
use nexusos_agentic.Engine.Base64.{decode_base64_url}
use nexusos_agentic.Engine.Contract.{
  engine_execution_statuses, engine_execution_reasons, one_of, is_engine_name, is_safe_version,
  is_summary, flag_of, exit_code_of,
}
use nexusos_agentic.Engine.Streams.{rejected, empty_stream_receipt, is_receipt_consistent}
use nexusos_agentic.Engine.Result.{
  is_outcome_consistent, parse_engine_execution_result, result_value,
}
use nexusos_agentic.Engine.Result.Laws.{IsReceipt, IsResult, parse-result_value}
use nexusos_agentic.Engine.Execute.{
  FaultReason, engine_incompatible, cancel_requested, reason_text, is_cancel, ExecutionInput,
  Engine, Outcome, faulted, ExecutionError, cancellation_invalid, fault_invalid,
  empty_failure_result, validated_engine_result, checked_clock, settle, conclude, is_input,
  execute_with_engine,
}

pub reason_text-listed : (f : FaultReason) → one_of engine_execution_reasons (reason_text f) ≡ true
unfolding one_of same units push_units
reason_text-listed engine_incompatible = refl
reason_text-listed _ = refl

pub reason_text-IsSummary : (f : FaultReason) → is_summary (reason_text f) ≡ true
unfolding is_summary one_of same units push_units byte_size
reason_text-IsSummary engine_incompatible = refl
reason_text-IsSummary _ = refl

pub failure_status :
    (f : FaultReason)
    → one_of engine_execution_statuses (if is_cancel f then units "canceled" else units "failed")
      ≡ true
unfolding one_of same units push_units
failure_status engine_incompatible = refl
failure_status _ = refl

failure-consistent :
    (i : ExecutionInput) (f : FaultReason) (started finished : Units)
    → is_outcome_consistent (empty_failure_result i f started finished) ≡ true
unfolding is_outcome_consistent empty_failure_result same units push_units
failure-consistent i engine_incompatible started finished = refl
failure-consistent i _ started finished = refl

empty-IsReceipt : (max : ℕ) → IsReceipt max empty_stream_receipt []
unfolding decode_base64_url is_receipt_consistent is_hash fits same units push_units
empty-IsReceipt max = record {
  encoded = [];
  is_text = refl;
  decodes = refl;
  within = omega arith;
  hash = refl;
  consistent = refl;
}

pub failure-IsResult :
    (d : UnitDates) (i : ExecutionInput) (f : FaultReason) (started finished : Units)
    → is_engine_name i.engine ≡ true
    → is_safe_version i.engine_version ≡ true
    → is_canonical d started ≡ true
    → is_canonical d finished ≡ true
    → lex_lt finished started ≡ false
    → IsResult d (empty_failure_result i f started finished)
unfolding empty_failure_result exit_code_of
failure-IsResult d i f started finished n v s e o = record {
  engine = n;
  version = v;
  status = failure_status f;
  reason = reason_text-listed f;
  started = s;
  finished = e;
  in_order = o;
  summary = reason_text-IsSummary f;
  stdout_excerpt = [];
  stderr_excerpt = [];
  stdout = empty-IsReceipt _;
  stderr = empty-IsReceipt _;
  fits = omega arith;
  exit_code = refl;
  consistent = failure-consistent i f started finished;
}

-- A clock that goes back has its result rejected.
failure-rejected :
    (d : UnitDates) (i : ExecutionInput) (f : FaultReason) (started finished : Units)
    → is_engine_name i.engine ≡ true
    → is_safe_version i.engine_version ≡ true
    → is_canonical d started ≡ true
    → is_canonical d finished ≡ true
    → lex_lt finished started ≡ true
    → parse_engine_execution_result d (result_value (empty_failure_result i f started finished))
      ≡ err rejected
unfolding parse_engine_execution_result result_value empty_failure_result require reject_if
    exact_record matches flag_of has lookup same units push_units
failure-rejected d i f started finished n v s e o =
    rw (n, v, failure_status f, reason_text-listed f, s, e, o) refl

-- A closed failure, where what it names is right: it settles unless the clock goes back.
pub settle_lem :
    (d : UnitDates) (error : ExecutionError) (i : ExecutionInput) (f : FaultReason)
    (first second : Units)
    → is_engine_name i.engine ≡ true
    → is_safe_version i.engine_version ≡ true
    → is_canonical d first ≡ true
    → is_canonical d second ≡ true
    → settle d error i f first second
      ≡ (if lex_lt second first then err error else ok (empty_failure_result i f first second))
unfolding settle checked_clock validated_engine_result
settle_lem d error i f first second n v a b = elim (Bool-cases (lex_lt second first)) [
  | inl back ↦ rw (b, back, failure-rejected d i f first second n v a b back) refl
  | inr ahead ↦
      rw
        (
          b,
          ahead,
          parse-result_value d (empty_failure_result i f first second)
              (failure-IsResult d i f first second n v a b ahead),
        )
        refl
]

-- What the input says of an engine that may run.
pub record IsReady (d : UnitDates) (engine : Engine) (i : ExecutionInput) : Type 0 where
  pub named : same engine.name i.engine ≡ true
  pub engine_is : is_engine_name i.engine ≡ true
  pub version_is : is_safe_version i.engine_version ≡ true

pub is_input-IsReady :
    (sha256_hex : Bytes → Units) (d : UnitDates) (engine : Engine) (i : ExecutionInput)
    → is_input sha256_hex d engine i ≡ true
    → IsReady d engine i
unfolding is_input
is_input-IsReady sha256_hex d engine i h = record {
  named = ground arith;
  engine_is = ground arith;
  version_is = ground arith;
}

-- How an execution fails in a closed way: it is cancelled before it starts, or the engine throws a
-- fault of the protocol.
abbrev pub FailsBy : Engine → ExecutionInput → FaultReason → Type 0
FailsBy engine i f =
    ((i.aborted ≡ true) × (f ≡ cancel_requested))
    ⊎ ((i.aborted ≡ false) × (engine.execute i ≡ faulted f))

abbrev pub closed_error : Bool → ExecutionError
closed_error true = cancellation_invalid
closed_error false = fault_invalid

attempt_lem :
    (d : UnitDates) (engine : Engine) (i : ExecutionInput) (f : FaultReason) (first second : Units)
    (aborted : Bool) (o : Outcome)
    → IsReady d engine i
    → is_canonical d first ≡ true
    → is_canonical d second ≡ true
    → ((aborted ≡ true) × (f ≡ cancel_requested)) ⊎ ((aborted ≡ false) × (o ≡ faulted f))
    → (if aborted
        then settle d cancellation_invalid i cancel_requested first second
        else conclude d engine i first second o)
      ≡ (if lex_lt second first
          then err (closed_error aborted)
          else ok (empty_failure_result i f first second))
unfolding conclude
attempt_lem d engine i f first second aborted o k a b (inl (is_aborted, is)) =
    rw (is_aborted, is)
      (settle_lem d cancellation_invalid i cancel_requested first second k.engine_is k.version_is a
        b)
attempt_lem d engine i f first second aborted o k a b (inr (running, threw)) =
    rw (running, threw) (settle_lem d fault_invalid i f first second k.engine_is k.version_is a b)

-- An execution of a valid input that fails in a closed way, with two readings of the clock that are
-- timestamps, gives the result of that failure, with no output and the two readings as its times; only
-- where the second reading is before the first is there an error instead.
pub closed_failure_settles :
    (sha256_hex : Bytes → Units) (d : UnitDates) (first second : Units) (engine : Engine)
    (i : ExecutionInput) (f : FaultReason)
    → is_input sha256_hex d engine i ≡ true
    → is_canonical d first ≡ true
    → is_canonical d second ≡ true
    → FailsBy engine i f
    → execute_with_engine sha256_hex d first second engine i ≡ (
        if lex_lt second first
        then err (closed_error i.aborted)
        else ok (empty_failure_result i f first second))
unfolding execute_with_engine checked_clock reject_if
closed_failure_settles sha256_hex d first second engine i f h a b failing =
    let k = is_input-IsReady sha256_hex d engine i h in
    rw (h, a) (attempt_lem d engine i f first second i.aborted (engine.execute i) k a b failing)
