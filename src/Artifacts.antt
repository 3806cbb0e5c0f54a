-- ===== src/Artifacts.antt =====
-- What an artifact and its review may hold (src/domain/artifacts/artifact.ts,
-- src/domain/artifacts/review.ts, src/domain/artifacts/supersession.ts).
pub mod Trim
pub mod Trimmed
pub mod Size
pub mod Review
pub mod Tests
use nexusos_agentic.Base.{
  ℕ, ◌+◌, String, Bool, true, false, not, ◌&&◌, ◌||◌, ◌==◌, Option, none, some, List, [], ◌∷◌,
  length, ltb, leb, if◌then◌else◌, Result, ok, err, ◌>>=◌,
}
use nexusos_agentic.Runtime.{max_safe_integer}
use nexusos_agentic.Text.{units}
use nexusos_agentic.Json.{Units, Value, text, number, is_high, is_low, same}

pub data ArtifactError : Type 0 where
  invalid_artifact_title invalid_artifact_content artifact_content_too_large : ArtifactError
  invalid_artifact_note invalid_artifact_media_type invalid_expected_version : ArtifactError
  invalid_artifact_erasure_reason : ArtifactError

unfoldable pub trim_start : (ℕ → Bool) → Units → Units
trim_start is_space [] = []
trim_start is_space (c ∷ cs) =
    let rest = trim_start is_space cs in if is_space c then rest else c ∷ cs

-- A unit before what is left of the units after it.
abbrev pub kept : Bool → ℕ → Units → Units
kept true c [] = []
kept _ c cs = c ∷ cs

unfoldable pub trim_end : (ℕ → Bool) → Units → Units
trim_end is_space [] = []
trim_end is_space (c ∷ cs) = kept (is_space c) c (trim_end is_space cs)

-- `trim`, with what is white space.
unfoldable pub trim : (ℕ → Bool) → Units → Units
unfolding trim_start trim_end
trim is_space s = trim_end is_space (trim_start is_space s)

-- A text whose trimmed form is of a length between two bounds.
unfoldable pub trimmed :
    (ℕ → Bool) → ArtifactError → ℕ → ℕ → Option Value → Result ArtifactError Units
unfolding trim
trimmed is_space e low high (some (text s)) =
    let t = trim is_space s in if ltb (length t) low || ltb high (length t) then err e else ok t
trimmed is_space e low high _ = err e

unfoldable pub validate_artifact_erasure_reason :
    (ℕ → Bool) → Option Value → Result ArtifactError Units
unfolding trimmed
validate_artifact_erasure_reason is_space value =
    trimmed is_space invalid_artifact_erasure_reason 10 500 value

unfoldable pub validate_artifact_title : (ℕ → Bool) → Option Value → Result ArtifactError Units
unfolding trimmed
validate_artifact_title is_space value = trimmed is_space invalid_artifact_title 1 160 value

unfoldable pub validate_artifact_note : (ℕ → Bool) → Option Value → Result ArtifactError Units
unfolding trimmed
validate_artifact_note is_space none = ok []
validate_artifact_note is_space (some v) = trimmed is_space invalid_artifact_note 0 500 (some v)

abbrev pub artifact_media_type : Units
artifact_media_type = units "text/markdown"

unfoldable pub validate_artifact_media_type : Option Value → Result ArtifactError Units
validate_artifact_media_type none = ok artifact_media_type
validate_artifact_media_type (some (text s)) =
    if same s artifact_media_type then ok artifact_media_type else err invalid_artifact_media_type
validate_artifact_media_type _ = err invalid_artifact_media_type

unfoldable pub validate_expected_artifact_version : Option Value → Result ArtifactError ℕ
validate_expected_artifact_version (some (number n)) =
    if not (leb n max_safe_integer) || ltb n 1 then err invalid_expected_version else ok n
validate_expected_artifact_version _ = err invalid_expected_version

-- Bytes of a unit in UTF-8; a surrogate on its own is encoded as U+FFFD, in three.
abbrev pub width : ℕ → ℕ
width c = if ltb c 0x80 then 1 else if ltb c 0x800 then 2 else 3

-- `new TextEncoder().encode(value).byteLength`: a low surrogate after a high one adds one byte to the
-- three of the high one, since a pair has four.
unfoldable pub byte_size : Bool → Units → ℕ
byte_size after_high [] = 0
byte_size after_high (c ∷ cs) =
    (if after_high && is_low c then 1 else width c) + byte_size (is_high c) cs

abbrev pub max_artifact_content_bytes : ℕ
max_artifact_content_bytes = 262144

pub record Content : Type 0 where
  pub content : Units
  pub content_hash : String
  pub byte_size : ℕ

unfoldable pub validate_artifact_content :
    (Units → String) → Option Value → Result ArtifactError Content
unfolding byte_size
validate_artifact_content sha256_hex (some (text s)) =
    if length s == 0
    then err invalid_artifact_content
    else if ltb max_artifact_content_bytes (byte_size false s)
    then err artifact_content_too_large
    else ok (record { content = s; content_hash = sha256_hex s; byte_size = byte_size false s })
validate_artifact_content sha256_hex _ = err invalid_artifact_content

pub data Verdict : Type 0 where
  approved changes_requested : Verdict

pub data ReviewError : Type 0 where
  invalid_review_verdict invalid_review_reason : ReviewError

unfoldable pub verdict_of : Option Value → Result ReviewError Verdict
verdict_of (some (text s)) =
    if same s (units "approved")
    then ok approved
    else if same s (units "changes_requested")
    then ok changes_requested
    else err invalid_review_verdict
verdict_of _ = err invalid_review_verdict

-- The reasons of a verdict.
abbrev pub serves : Verdict → Units → Bool
serves approved s = same s (units "accurate") || same s (units "complete")
serves changes_requested s =
    same s (units "needs_correction")
    || same s (units "needs_evidence")
    || same s (units "outdated")

unfoldable pub reason_for : Verdict → Option Value → Result ReviewError (Verdict × Units)
reason_for v (some (text s)) = if serves v s then ok (v, s) else err invalid_review_reason
reason_for v _ = err invalid_review_reason

unfoldable pub validate_artifact_review_input :
    Option Value → Option Value → Result ReviewError (Verdict × Units)
unfolding verdict_of reason_for
validate_artifact_review_input verdict reason_code = do
  v ← verdict_of verdict
  reason_for v reason_code

pub data SupersessionError : Type 0 where
  invalid_supersession_reason invalid_supersession_retraction_reason : SupersessionError

unfoldable pub validate_artifact_supersession_reason : Option Value → Result SupersessionError Units
validate_artifact_supersession_reason (some (text s)) =
    if same s (units "replaced_by_revision")
      || same s (units "duplicate_output")
      || same s (units "scope_moved")
    then ok s
    else err invalid_supersession_reason
validate_artifact_supersession_reason _ = err invalid_supersession_reason

unfoldable pub validate_artifact_supersession_retraction_reason :
    Option Value → Result SupersessionError Units
validate_artifact_supersession_retraction_reason (some (text s)) =
    if same s (units "declared_in_error") || same s (units "no_longer_accurate")
    then ok s
    else err invalid_supersession_retraction_reason
validate_artifact_supersession_retraction_reason _ = err invalid_supersession_retraction_reason
