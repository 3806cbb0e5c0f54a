-- ===== src/Engine/Result/Sound.antt =====
-- Results that are parsed are well formed (src/domain/runners/execution-engine.ts).
use mathlib.Core.Path.{subst}
use nexusos_agentic.Base.{
  ◌≡◌, refl, ap, ◌∙◌, Bool, true, false, not, arith, ok, ok_injective, returned_pass,
}
use nexusos_agentic.Text.{units, lex_lt}
use nexusos_agentic.Json.{Value, lookup}
use nexusos_agentic.Workflow.Records.{
  UnitDates, is_canonical, exact_record, matches, matches-eq-some, require_pass, reject_pass,
}
use nexusos_agentic.Engine.Excerpts.{engine_excerpt_max_bytes}
use nexusos_agentic.Engine.Contract.{
  engine_stdout_max_bytes, engine_stderr_max_bytes, engine_execution_statuses,
  engine_execution_reasons, one_of, is_engine_name, is_safe_version, is_summary, flag_of,
  exit_code_of,
}
use nexusos_agentic.Engine.Streams.{rejected, parse_stream_receipt, excerpt_size}
use nexusos_agentic.Engine.Result.{
  ExecutionResult, result_keys, is_outcome_consistent, exceeds, parse_engine_execution_result,
}
use nexusos_agentic.Engine.Result.Parts.{
  parse_stream_receipt-IsParsed, sized_text, sizes_within, exit_code_of-value,
}
use nexusos_agentic.Engine.Result.Laws.{IsResult}

pub not-eq-false : (b : Bool) → not b ≡ false → b ≡ true
not-eq-false true h = refl
not-eq-false false h = cc

-- Every result that is parsed is well formed.
pub parse-IsResult :
    (d : UnitDates) (v : Value) (r : ExecutionResult)
    → parse_engine_execution_result d v ≡ ok r
    → IsResult d r
unfolding parse_engine_execution_result
parse-IsResult d v r h = require_pass rejected (exact_record result_keys v) h λ fs _ h1.
    require_pass rejected (matches is_engine_name (lookup (units "engine") fs)) h1
      λ engine engine_is h2.
        require_pass rejected (matches is_safe_version (lookup (units "engineVersion") fs)) h2
          λ version version_is h3.
            require_pass rejected
              (matches (one_of engine_execution_statuses) (lookup (units "status") fs)) h3
              λ status status_is h4.
                require_pass rejected
                  (matches (one_of engine_execution_reasons) (lookup (units "reason") fs)) h4
                  λ reason reason_is h5.
                    require_pass rejected (flag_of (lookup (units "cancelRequested") fs)) h5
                      λ cancel _ h6.
                        require_pass rejected (flag_of (lookup (units "timedOut") fs)) h6
                          λ late _ h7.
                            require_pass rejected
                              (matches (is_canonical d) (lookup (units "startedAt") fs)) h7
                              λ started started_is h8.
                                require_pass rejected
                                  (matches (is_canonical d) (lookup (units "finishedAt") fs)) h8
                                  λ finished finished_is h9.
                                    reject_pass (lex_lt finished started) rejected _ h9
                                      λ in_order h10.
                                        require_pass rejected
                                          (matches is_summary (lookup (units "summary") fs)) h10
                                          λ summary summary_is h11.
                                            require_pass rejected
                                              (parse_stream_receipt engine_stdout_max_bytes
                                                (lookup (units "stdout") fs))
                                              h11
                                              λ out out_is h12.
                                                require_pass rejected
                                                  (parse_stream_receipt engine_stderr_max_bytes
                                                    (lookup (units "stderr") fs))
                                                  h12
                                                  λ back back_is h13.
                                                    returned_pass
                                                      (excerpt_size out.excerpt_base64_url) h13
                                                      λ out_size out_sized h14.
                                                        returned_pass
                                                          (excerpt_size back.excerpt_base64_url) h14
                                                          λ back_size back_sized h15.
                                                            reject_pass
                                                            (exceeds engine_excerpt_max_bytes
                                                            out_size back_size)
                                                            rejected _ h15
                                                            λ fits h16.
                                                            require_pass rejected
                                                            (exit_code_of
                                                            (lookup (units "exitCode") fs))
                                                            h16
                                                            λ exit_code exit_is h17.
                                                            let result : ExecutionResult = record {
                                                            cancel_requested = cancel;
                                                            engine = engine;
                                                            engine_version = version;
                                                            exit_code = exit_code;
                                                            finished_at = finished;
                                                            reason = reason;
                                                            started_at = started;
                                                            status = status;
                                                            stderr = back;
                                                            stdout = out;
                                                            summary = summary;
                                                            timed_out = late;
                                                            } in
                                                            reject_pass
                                                            (not (is_outcome_consistent result))
                                                            rejected _ h17
                                                            λ consistent h18.
                                                            let (x, y, ox, by, total) =
                                                            sizes_within engine_excerpt_max_bytes
                                                            out_size back_size fits in
                                                            let (
                                                            out_bytes, out_receipt, out_length,
                                                            ) =
                                                            sized_text engine_stdout_max_bytes out x
                                                            (parse_stream_receipt-IsParsed
                                                            engine_stdout_max_bytes
                                                            (lookup (units "stdout") fs) out out_is)
                                                            (out_sized ∙ ap (λ o. ok o) ox) in
                                                            let (
                                                            back_bytes, back_receipt, back_length,
                                                            ) =
                                                            sized_text engine_stderr_max_bytes back
                                                            y
                                                            (parse_stream_receipt-IsParsed
                                                            engine_stderr_max_bytes
                                                            (lookup (units "stderr") fs) back
                                                            back_is)
                                                            (back_sized ∙ ap (λ o. ok o) by) in
                                                            let same : result ≡ r =
                                                            ok_injective h18 in
                                                            subst (IsResult d) same (record {
                                                            engine =
                                                            matches-eq-some is_engine_name
                                                            (lookup (units "engine") fs) engine
                                                            engine_is;
                                                            version =
                                                            matches-eq-some is_safe_version
                                                            (lookup (units "engineVersion") fs)
                                                            version version_is;
                                                            status =
                                                            matches-eq-some
                                                            (one_of engine_execution_statuses)
                                                            (lookup (units "status") fs) status
                                                            status_is;
                                                            reason =
                                                            matches-eq-some
                                                            (one_of engine_execution_reasons)
                                                            (lookup (units "reason") fs) reason
                                                            reason_is;
                                                            started =
                                                            matches-eq-some (is_canonical d)
                                                            (lookup (units "startedAt") fs) started
                                                            started_is;
                                                            finished =
                                                            matches-eq-some (is_canonical d)
                                                            (lookup (units "finishedAt") fs)
                                                            finished finished_is;
                                                            in_order = in_order;
                                                            summary =
                                                            matches-eq-some is_summary
                                                            (lookup (units "summary") fs) summary
                                                            summary_is;
                                                            stdout_excerpt = out_bytes;
                                                            stderr_excerpt = back_bytes;
                                                            stdout = out_receipt;
                                                            stderr = back_receipt;
                                                            fits =
                                                            omega
                                                            (arith, total, out_length, back_length);
                                                            exit_code =
                                                            exit_code_of-value
                                                            (lookup (units "exitCode") fs) exit_code
                                                            exit_is;
                                                            consistent =
                                                            not-eq-false
                                                            (is_outcome_consistent result)
                                                            consistent;
                                                            })
