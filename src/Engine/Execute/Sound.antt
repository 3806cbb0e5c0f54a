-- ===== src/Engine/Execute/Sound.antt =====
-- What an execution returns: executeWithEngine of src/domain/runners/execution-engine.ts.
use mathlib.Core.Path.{subst}
use nexusos_agentic.Base.{
  ◌≡◌, refl, sym, ap, ◌∙◌, Bool, true, false, not, ◌||◌, arith, if◌then◌else◌, Result, ok, err,
  ok_injective, returned_pass, if_ok, if_err,
}
use nexusos_agentic.Text.{lex_lt}
use nexusos_agentic.Json.{Units, Value, same}
use nexusos_agentic.Governance.Canonical.Laws.{same_iff}
use nexusos_agentic.Workflow.Records.{UnitDates, is_canonical, reject_pass}
use nexusos_agentic.Engine.Excerpts.{Bytes}
use nexusos_agentic.Engine.Streams.{ParseFailure, rejected, threw}
use nexusos_agentic.Engine.Result.{ExecutionResult, parse_engine_execution_result}
use nexusos_agentic.Engine.Result.Laws.{IsResult}
use nexusos_agentic.Engine.Result.Sound.{parse-IsResult, not-eq-false}
use nexusos_agentic.Engine.Execute.{
  FaultReason, cancel_requested, ExecutionInput, Engine, Outcome, returned, faulted, failed,
  ExecutionError, invalid_input, invalid_clock, result_invalid, cancellation_invalid, fault_invalid,
  or_contract_error, empty_failure_result, validated_engine_result, checked_clock, settle, conclude,
  is_input, execute_with_engine,
}
use nexusos_agentic.Engine.Execute.Faults.{settle_lem, is_input-IsReady, IsReady, failure-IsResult}

-- A result for an input: well formed, by the engine and of the version that were asked for.
pub record IsResultOf (d : UnitDates) (i : ExecutionInput) (r : ExecutionResult) : Type 0 where
  pub well_formed : IsResult d r
  pub engine : r.engine ≡ i.engine
  pub version : r.engine_version ≡ i.engine_version

checked_clock-eq-ok :
    (d : UnitDates) (s t : Units) → checked_clock d s ≡ ok t → (is_canonical d s ≡ true) × (s ≡ t)
unfolding checked_clock
checked_clock-eq-ok d s t h = if_ok (is_canonical d s) s t invalid_clock h

or_contract_error-eq-ok :
    (e : ExecutionError) (o : Result ParseFailure ExecutionResult) (r : ExecutionResult)
    → or_contract_error e o ≡ ok r
    → o ≡ ok r
or_contract_error-eq-ok e (ok s) r h = ap (λ x. ok x) (ok_injective h)
or_contract_error-eq-ok e (err rejected) r h = let bad : ⊥ = cc in absurd bad
or_contract_error-eq-ok e (err threw) r h = let bad : ⊥ = cc in absurd bad

validated-IsResult :
    (d : UnitDates) (e : ExecutionError) (v : Value) (r : ExecutionResult)
    → validated_engine_result d e v ≡ ok r
    → IsResult d r
unfolding validated_engine_result
validated-IsResult d e v r h =
    parse-IsResult d v r (or_contract_error-eq-ok e (parse_engine_execution_result d v) r h)

settled :
    (d : UnitDates) (engine : Engine) (e : ExecutionError) (i : ExecutionInput) (f : FaultReason)
    (first second : Units) (r : ExecutionResult)
    → IsReady d engine i
    → is_canonical d first ≡ true
    → settle d e i f first second ≡ ok r
    → IsResultOf d i r
unfolding settle empty_failure_result
settled d engine e i f first second r k a h =
    returned_pass (checked_clock d second) h λ later checked h1.
      let (b, _) = checked_clock-eq-ok d second later checked in
      let is = settle_lem d e i f first second k.engine_is k.version_is a b in
      let (ahead, same_result) =
        if_err (lex_lt second first) (empty_failure_result i f first second) r e (sym is ∙ h) in
      subst (IsResultOf d i) same_result (record {
        well_formed = failure-IsResult d i f first second k.engine_is k.version_is a b ahead;
        engine = refl;
        version = refl;
      })

concluded :
    (d : UnitDates) (engine : Engine) (i : ExecutionInput) (first second : Units) (o : Outcome)
    (r : ExecutionResult)
    → IsReady d engine i
    → is_canonical d first ≡ true
    → conclude d engine i first second o ≡ ok r
    → IsResultOf d i r
unfolding conclude
concluded d engine i first second (faulted f) r k a h =
    settled d engine fault_invalid i f first second r k a h
concluded d engine i first second failed r k a h = let bad : ⊥ = cc in absurd bad
concluded d engine i first second (returned raw) r k a h =
    returned_pass (validated_engine_result d result_invalid raw) h λ result valid h1.
      reject_pass
        (not (same result.engine engine.name)
          || not (same result.engine i.engine)
          || not (same result.engine_version i.engine_version))
        result_invalid _ h1
        λ bound h2.
          let engine_is = same_iff result.engine i.engine in
          let version_is = same_iff result.engine_version i.engine_version in
          subst (IsResultOf d i) (ok_injective h2) (record {
            well_formed = validated-IsResult d result_invalid raw result valid;
            engine = ground arith;
            version = ground arith;
          })

attempted :
    (d : UnitDates) (engine : Engine) (i : ExecutionInput) (first second : Units) (aborted : Bool)
    (o : Outcome) (r : ExecutionResult)
    → IsReady d engine i
    → is_canonical d first ≡ true
    → (if aborted
        then settle d cancellation_invalid i cancel_requested first second
        else conclude d engine i first second o)
      ≡ ok r
    → IsResultOf d i r
attempted d engine i first second true o r k a h =
    settled d engine cancellation_invalid i cancel_requested first second r k a h
attempted d engine i first second false o r k a h = concluded d engine i first second o r k a h

-- Every result that an execution returns is well formed, and by the engine and of the version that
-- the input asks for.
pub execute-IsResultOf :
    (sha256_hex : Bytes → Units) (d : UnitDates) (first second : Units) (engine : Engine)
    (i : ExecutionInput) (r : ExecutionResult)
    → execute_with_engine sha256_hex d first second engine i ≡ ok r
    → IsResultOf d i r
unfolding execute_with_engine
execute-IsResultOf sha256_hex d first second engine i r h =
    reject_pass (not (is_input sha256_hex d engine i)) invalid_input _ h λ input_is h1.
      returned_pass (checked_clock d first) h1 λ started checked h2.
        let (a, same_start) = checked_clock-eq-ok d first started checked in
        let a_started : is_canonical d started ≡ true = sym (ap (is_canonical d) same_start) ∙ a in
        attempted d engine i started second i.aborted (engine.execute i) r
          (is_input-IsReady sha256_hex d engine i
            (not-eq-false (is_input sha256_hex d engine i) input_is))
          a_started h2
