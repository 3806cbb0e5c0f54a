-- ===== src/Engine/Tests.antt =====
-- Executions at concrete values, with a calendar of one instant and a hash that is the same for every
-- prompt.
use nexusos_agentic.Base.{
  ◌≡◌, ◌↔◌, refl, true, false, none, some, [], ◌∷◌, length, leb, leb→le, arith, if◌then◌else◌, ok,
  err, inr,
}
use nexusos_agentic.Text.{units, push_units, fits, lex_lt}
use nexusos_agentic.Json.{
  Units, Value, text, number, object, field, end, has, lookup, same, size, stringify, quote, escape,
  digits,
}
use nexusos_agentic.Json.Read.{parse}
use nexusos_agentic.Json.RoundTrip.{parse-stringify}
use nexusos_agentic.Workflow.Records.{UnitDates, is_canonical, is_hash}
use nexusos_agentic.Engine.Excerpts.{
  Bytes, Excerpts, frame_engine_excerpts, unframe_engine_excerpts, unframe_iff,
}
use nexusos_agentic.Engine.Base64.{encode_base64_url, decode_base64_url, decode_iff}
use nexusos_agentic.Engine.Contract.{is_engine_name, is_safe_version, is_summary, exit_code_of}
use nexusos_agentic.Engine.Streams.{threw, empty_stream_receipt, excerpt_size}
use nexusos_agentic.Engine.Result.{ExecutionResult, parse_engine_execution_result, result_value}
use nexusos_agentic.Engine.Result.Framed.{Carries, parsed_excerpts_framed}
use nexusos_agentic.Engine.Execute.{
  ExecutionInput, Engine, returned, faulted, timed_out, lease_lost, empty_failure_result, is_input,
  execute_with_engine,
}
use nexusos_agentic.Engine.Execute.Faults.{closed_error, closed_failure_settles}
use nexusos_agentic.Engine.Execute.Sound.{IsResultOf, execute-IsResultOf}
use nexusos_agentic.Engine.Execute.Null.{with_null, null_excerpt_throws}
use nexusos_agentic.Engine.Complete.{
  Codec, CompleteBody, is_lease_id, is_operation_id, body_value, parse_engine_complete_body,
  canonical_engine_complete_body,
}
use nexusos_agentic.Engine.Complete.RoundTrip.{IsBody, ReadsBack, complete_body-ReadsBack}

-- The bytes of `3q2_`.
abbrev four : Bytes
four = 222 ∷ 173 ∷ 191 ∷ []

decode_iff_example :
    (decode_base64_url (units "3q2_") ≡ some four) ↔ (encode_base64_url four ≡ units "3q2_")
decode_iff_example = decode_iff (units "3q2_") four (omega arith, (omega arith, (omega arith, tt)))

four-encoded : encode_base64_url four ≡ units "3q2_"
unfolding encode_base64_url units push_units
four-encoded = refl

-- Bits that are left over have to be zero.
loose_bits-refused : decode_base64_url (units "3r") ≡ none
unfolding decode_base64_url units push_units
loose_bits-refused = refl

abbrev pair : Excerpts
pair = record { stdout = 7 ∷ 8 ∷ []; stderr = 9 ∷ [] }

unframe_iff_example :
    (unframe_engine_excerpts (0 ∷ 2 ∷ 7 ∷ 8 ∷ 9 ∷ []) ≡ some pair)
    ↔ (frame_engine_excerpts pair ≡ some (0 ∷ 2 ∷ 7 ∷ 8 ∷ 9 ∷ []))
unframe_iff_example =
    unframe_iff (0 ∷ 2 ∷ 7 ∷ 8 ∷ 9 ∷ []) pair
      (omega arith, (omega arith, (omega arith, (omega arith, (omega arith, tt)))))

pair-framed : frame_engine_excerpts pair ≡ some (0 ∷ 2 ∷ 7 ∷ 8 ∷ 9 ∷ [])
unfolding frame_engine_excerpts
pair-framed = refl

abbrev noon : Units
noon = units "2026-03-01T12:00:00.000Z"

abbrev dates : UnitDates
dates = record { parse = λ s. if same s noon then some 7 else none; to_iso = λ n. some noon }

abbrev ones : Units
ones = units "1111111111111111111111111111111111111111111111111111111111111111"

abbrev constant_hash : Bytes → Units
constant_hash bs = ones

abbrev limits : Value
limits = object (
    field (units "excerptBytes") (number 1024) (
      field (units "outputBounds")
        (object (
          field (units "stderrBytes") (number 65536)
            (field (units "stdoutBytes") (number 262144) end)))
        end))

abbrev input : ExecutionInput
input = record {
  deadline_at = noon;
  engine = units "codex_cli";
  engine_version = units "codex 1.2.3";
  prompt = 104 ∷ 105 ∷ [];
  prompt_sha256 = ones;
  aborted = false;
  limits = limits;
  timeout_ms = 300000;
  workdir = units "/work/run";
}

input-accepted :
    (engine : Engine)
    → same engine.name (units "codex_cli") ≡ true
    → is_input constant_hash dates engine input ≡ true
unfolding is_input is_engine_name is_safe_version is_hash is_canonical fits same has lookup units
    push_units
input-accepted engine h = rw h refl

-- An engine that succeeds, with three bytes of output.
abbrev success : ExecutionResult
success = record {
  cancel_requested = false;
  engine = units "codex_cli";
  engine_version = units "codex 1.2.3";
  exit_code = some 0;
  finished_at = noon;
  reason = units "none";
  started_at = noon;
  status = units "succeeded";
  stderr = empty_stream_receipt;
  stdout = record {
    bytes = 3;
    excerpt_base64_url = text (units "3q2_");
    sha256 = ones;
    truncated = false;
  };
  summary = units "completed";
  timed_out = false;
}

abbrev working : Engine
working = record { name = units "codex_cli"; execute = λ i. returned (result_value success) }

abbrev failing : Engine
failing = record { name = units "codex_cli"; execute = λ i. faulted lease_lost }

success-parsed : parse_engine_execution_result dates (result_value success) ≡ ok success
unfolding parse_engine_execution_result result_value is_engine_name is_safe_version is_summary
    decode_base64_url is_hash is_canonical fits same has lookup units push_units lex_lt exit_code_of
success-parsed = refl

work-executed : execute_with_engine constant_hash dates noon noon working input ≡ ok success
unfolding execute_with_engine result_value is_engine_name is_safe_version is_summary
    decode_base64_url is_hash is_canonical fits same has lookup units push_units lex_lt exit_code_of
work-executed = refl

execute-IsResultOf_example : IsResultOf dates input success
execute-IsResultOf_example =
    execute-IsResultOf constant_hash dates noon noon working input success work-executed

noon-canonical : is_canonical dates noon ≡ true
unfolding is_canonical fits same units push_units
noon-canonical = refl

closed_failure_settles_example : execute_with_engine constant_hash dates noon noon failing input ≡ (
    if lex_lt noon noon
    then err (closed_error false)
    else ok (empty_failure_result input lease_lost noon noon))
unfolding same units push_units
closed_failure_settles_example =
    closed_failure_settles constant_hash dates noon noon failing input lease_lost
      (input-accepted failing refl) noon-canonical noon-canonical (inr (refl, refl))

parsed_excerpts_framed_example :
    (e : Excerpts) × (framed : Bytes) × Carries success.stdout e.stdout
    × Carries success.stderr e.stderr
    × (frame_engine_excerpts e ≡ some framed)
    × (unframe_engine_excerpts framed ≡ some e)
parsed_excerpts_framed_example =
    parsed_excerpts_framed dates (result_value success) success success-parsed

name-accepted : is_engine_name input.engine ≡ true
unfolding is_engine_name same units push_units
name-accepted = refl

version-accepted : is_safe_version input.engine_version ≡ true
unfolding is_safe_version units push_units
version-accepted = refl

noon-ordered : lex_lt noon noon ≡ false
unfolding lex_lt units push_units
noon-ordered = refl

null_excerpt_throws_example :
    parse_engine_execution_result dates
      (result_value (with_null (empty_failure_result input timed_out noon noon)))
    ≡ err threw
null_excerpt_throws_example =
    null_excerpt_throws dates input timed_out noon noon name-accepted version-accepted
      noon-canonical noon-canonical noon-ordered

-- Texts are sent as their units, and read by the reader of this library.
abbrev codec : Codec
codec = record { decode = λ raw. some raw; encode = λ s. s; parse_json = λ s. parse 600 s }

abbrev completion : CompleteBody
completion = record {
  fence = 3;
  lease_id = units "lse_00000000000000000000000000000000";
  operation_id = units "op_00000000000000000000000000000000";
  receipt = success;
}

completion-IsBody : IsBody dates completion
unfolding is_lease_id is_operation_id fits units push_units
completion-IsBody = record {
  fence = (omega arith, omega arith);
  lease = refl;
  operation = refl;
  receipt = (execute-IsResultOf_example).well_formed;
}

completion-nonempty : leb 1 (length (stringify (body_value completion))) ≡ true
unfolding body_value result_value stringify quote escape digits units push_units
completion-nonempty = refl

completion-small : leb (length (stringify (body_value completion))) 4096 ≡ true
unfolding body_value result_value stringify quote escape digits units push_units
completion-small = refl

completion-ReadsBack : ReadsBack codec (body_value completion)
unfolding body_value result_value size units push_units
completion-ReadsBack = record {
  decoded = refl;
  parsed = parse-stringify 600 (body_value completion) (omega arith);
}

complete_body-ReadsBack_example :
    (parse_engine_complete_body codec dates (stringify (body_value completion)) ≡ ok completion)
    × (canonical_engine_complete_body codec dates completion
        ≡ some (stringify (body_value completion)))
complete_body-ReadsBack_example =
    complete_body-ReadsBack codec dates completion completion-IsBody completion-ReadsBack
      (leb→le 1 (length (stringify (body_value completion))) completion-nonempty)
      (leb→le (length (stringify (body_value completion))) 4096 completion-small)

-- An excerpt that is no text: a number has no size, and an object may hide its conversion to one.
odd_excerpts :
    (excerpt_size (number 5) ≡ ok none)
    × (excerpt_size (object (field (units "toString") (number 1) end)) ≡ err threw)
unfolding excerpt_size has units push_units
odd_excerpts = (refl, refl)
