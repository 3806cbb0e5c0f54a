-- ===== src/Engine/Contract.antt =====
-- What execution engines and their results are made of (src/contracts/execution-engines.ts, and the
-- checks of src/domain/runners/execution-engine.ts on single values).
use nexusos_agentic.Base.{
  ℕ, Bool, false, not, ◌&&◌, ◌||◌, ◌==◌, Option, none, some, List, [], ◌∷◌, any, all, length, leb,
  if◌then◌else◌,
}
use nexusos_agentic.Text.{units}
use nexusos_agentic.Json.{Units, Value, bool, number, text, null, same}
use nexusos_agentic.Artifacts.{byte_size}

abbrev pub engine_stdout_max_bytes : ℕ
engine_stdout_max_bytes = 262144

abbrev pub engine_stderr_max_bytes : ℕ
engine_stderr_max_bytes = 65536

abbrev pub engine_completion_max_bytes : ℕ
engine_completion_max_bytes = 4096

abbrev pub engine_summary_max_bytes : ℕ
engine_summary_max_bytes = 64

abbrev pub engine_version_max_bytes : ℕ
engine_version_max_bytes = 64

abbrev pub engine_prompt_max_bytes : ℕ
engine_prompt_max_bytes = 8192

abbrev pub max_fence : ℕ
max_fence = 2147483647

abbrev pub empty_sha256 : Units
empty_sha256 = units "e3b0c44298fc1c149afbf4c8996fb92427ae41e4649b934ca495991b7852b855"

abbrev pub execution_engine_names : List Units
execution_engine_names = units "claude_code_cli" ∷ units "codex_cli" ∷ []

abbrev pub engine_execution_statuses : List Units
engine_execution_statuses = units "succeeded" ∷ units "failed" ∷ units "canceled" ∷ []

abbrev pub engine_execution_reasons : List Units
engine_execution_reasons =
    units "none"
    ∷ units "engine_incompatible"
    ∷ units "engine_deadline_exhausted"
    ∷ units "prompt_unavailable"
    ∷ units "prompt_erased"
    ∷ units "prompt_integrity_mismatch"
    ∷ units "spawn_failed"
    ∷ units "timed_out"
    ∷ units "cancel_requested"
    ∷ units "lease_lost"
    ∷ units "output_limit_reached"
    ∷ units "interrupted_after_start"
    ∷ units "orphan_identity_ambiguous"
    ∷ units "engine_exit_nonzero"
    ∷ units "protocol_invalid"
    ∷ []

-- `isMember`, of a text.
unfoldable pub one_of : List Units → Units → Bool
unfolding same
one_of values s = any (same s) values

-- `isExecutionEngineName`.
unfoldable pub is_engine_name : Units → Bool
unfolding one_of
is_engine_name s = one_of execution_engine_names s

abbrev pub letter_or_digit : ℕ → Bool
letter_or_digit c =
    (leb b'A' c && leb c b'Z') || (leb b'a' c && leb c b'z') || (leb b'0' c && leb c b'9')

-- `[A-Za-z0-9 ._+()-]`.
abbrev pub version_unit : ℕ → Bool
version_unit c =
    letter_or_digit c
    || c == 32
    || c == b'.'
    || c == b'_'
    || c == b'+'
    || c == b'('
    || c == b')'
    || c == b'-'

-- `ENGINE_VERSION_PATTERN`.
abbrev pub fits_version : Units → Bool
fits_version [] = false
fits_version (c ∷ cs) = letter_or_digit c && all version_unit cs && leb (length cs) 63

-- `isSafeVersion`.
unfoldable pub is_safe_version : Units → Bool
unfolding byte_size
is_safe_version s = leb (byte_size false s) engine_version_max_bytes && fits_version s

-- `isSummary`.
unfoldable pub is_summary : Units → Bool
unfolding byte_size one_of same
is_summary s =
    leb 1 (length s)
    && leb (byte_size false s) engine_summary_max_bytes
    && (same s (units "completed") || one_of engine_execution_reasons s)
    && not (same s (units "none"))

-- `typeof value === "boolean"`.
unfoldable pub flag_of : Option Value → Option Bool
flag_of (some (bool b)) = some b
flag_of _ = none

-- `stringValue`.
unfoldable pub string_value : Value → Units
string_value (text s) = s
string_value _ = []

-- `null`, or an integer from 0 to 255.
unfoldable pub exit_code_of : Option Value → Option (Option ℕ)
exit_code_of (some null) = some none
exit_code_of (some (number n)) = if leb n 255 then some (some n) else none
exit_code_of _ = none
