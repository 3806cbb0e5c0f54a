-- ===== src/Engine/Input.antt =====
-- The working directory and the limits of an execution: isAbsoluteWorkdir and hasExactLimits of
-- src/domain/runners/execution-engine.ts.
use nexusos_agentic.Base.{
  ℕ, Bool, true, false, not, ◌&&◌, ◌||◌, ◌==◌, Option, none, some, List, [], ◌∷◌, any, length, leb,
  if◌then◌else◌,
}
use nexusos_agentic.Text.{units}
use nexusos_agentic.Json.{Units, Value, Fields, number, lookup}
use nexusos_agentic.Workflow.Records.{exact_record}
use nexusos_agentic.Engine.Excerpts.{engine_excerpt_max_bytes}
use nexusos_agentic.Engine.Contract.{engine_stdout_max_bytes, engine_stderr_max_bytes}

-- `replaceAll("\\", "/")`.
unfoldable pub normalized_separators : Units → Units
normalized_separators [] = []
normalized_separators (c ∷ cs) = (if c == b'\\' then b'/' else c) ∷ normalized_separators cs

abbrev pub is_drive : ℕ → Units → Bool
is_drive c (d ∷ e ∷ cs) =
    ((leb b'A' c && leb c b'Z') || (leb b'a' c && leb c b'z')) && d == b':' && e == b'/'
is_drive c _ = false

-- `startsWith("/")`, or `/^[A-Za-z]:\//u`.
abbrev pub starts_at_root : Units → Bool
starts_at_root [] = false
starts_at_root (c ∷ cs) = c == b'/' || is_drive c cs

abbrev pub ends_with_separator : Units → Bool
ends_with_separator [] = false
ends_with_separator (c ∷ []) = c == b'/'
ends_with_separator (c ∷ d ∷ cs) = ends_with_separator (d ∷ cs)

abbrev pub has_empty_segment : Units → Bool
has_empty_segment [] = false
has_empty_segment (c ∷ []) = false
has_empty_segment (c ∷ d ∷ cs) = (c == b'/' && d == b'/') || has_empty_segment (d ∷ cs)

abbrev pub segment_ends : Units → Bool
segment_ends [] = true
segment_ends (c ∷ cs) = c == b'/'

-- `\.{1,2}(?:\/|$)`, here.
abbrev pub dots_here : Units → Bool
dots_here [] = false
dots_here (c ∷ []) = c == b'.'
dots_here (c ∷ d ∷ cs) = c == b'.' && (d == b'/' || (d == b'.' && segment_ends cs))

-- `(?:^|\/)\.{1,2}(?:\/|$)`, with whether a segment starts here.
unfoldable pub has_dots : Bool → Units → Bool
has_dots starts [] = false
has_dots starts (c ∷ cs) = (starts && dots_here (c ∷ cs)) || has_dots (c == b'/') cs

unfoldable pub is_absolute_workdir : Units → Bool
unfolding normalized_separators has_dots
is_absolute_workdir s =
    leb 2 (length s)
    && not (any (λ c. c == 0 || c == 13 || c == 10) s)
    && starts_at_root (normalized_separators s)
    && not (ends_with_separator (normalized_separators s))
    && not (has_empty_segment (normalized_separators s))
    && not (has_dots true (normalized_separators s))

abbrev pub number_is : ℕ → Option Value → Bool
number_is n (some (number m)) = m == n
number_is n _ = false

abbrev pub bounds_exact : Option Fields → Bool
bounds_exact none = false
bounds_exact (some bs) =
    number_is engine_stderr_max_bytes (lookup (units "stderrBytes") bs)
    && number_is engine_stdout_max_bytes (lookup (units "stdoutBytes") bs)

abbrev pub record_of : List Units → Option Value → Option Fields
record_of keys none = none
record_of keys (some v) = exact_record keys v

abbrev pub limits_exact : Option Fields → Bool
limits_exact none = false
limits_exact (some fs) =
    number_is engine_excerpt_max_bytes (lookup (units "excerptBytes") fs)
    && bounds_exact (
        record_of (units "stderrBytes" ∷ units "stdoutBytes" ∷ [])
          (lookup (units "outputBounds") fs))

unfoldable pub has_exact_limits : Value → Bool
unfolding exact_record
has_exact_limits v =
    limits_exact (exact_record (units "excerptBytes" ∷ units "outputBounds" ∷ []) v)
