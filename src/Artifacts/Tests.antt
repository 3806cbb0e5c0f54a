-- ===== src/Artifacts/Tests.antt =====
-- Artifacts at concrete values.
use nexusos_agentic.Base.{
  ℕ, ◌≡◌, ◌≤◌, ◌⊎◌, ◌↔◌, refl, String, Bool, false, ◌==◌, Option, none, some, [], ◌∷◌, ok, err,
  arith,
}
use nexusos_agentic.Text.{units, push_units}
use nexusos_agentic.Json.{Units, Value, text, number, same}
use nexusos_agentic.Artifacts.{
  validate_artifact_title, validate_artifact_note, validate_artifact_erasure_reason,
  validate_artifact_media_type, validate_expected_artifact_version, artifact_media_type,
  invalid_artifact_media_type, invalid_expected_version, invalid_artifact_title, byte_size,
  validate_artifact_content, approved, invalid_review_reason, invalid_supersession_reason,
  validate_artifact_supersession_reason, validate_artifact_supersession_retraction_reason,
  validate_artifact_review_input,
}
use nexusos_agentic.Artifacts.Trimmed.{IsAccepted, validated_iff}
use nexusos_agentic.Artifacts.Size.{short_content_accepted}

abbrev space : ℕ → Bool
space c = c == 32

plan-accepted :
    validate_artifact_title space (some (text (units "  The plan "))) ≡ ok (units "The plan")
unfolding validate_artifact_title units push_units
plan-accepted = refl

note-accepted : validate_artifact_note space (some (text (units "   "))) ≡ ok []
unfolding validate_artifact_note units push_units
note-accepted = refl

reason-accepted :
    validate_artifact_erasure_reason space (some (text (units "personal data ")))
    ≡ ok (units "personal data")
unfolding validate_artifact_erasure_reason units push_units
reason-accepted = refl

abbrev plan : Option Value
plan = some (text (units "  The plan "))

validated_iff_example :
    ((validate_artifact_title space plan ≡ ok (units "The plan"))
      ↔ (IsAccepted space 1 160 plan (units "The plan")))
    × ((validate_artifact_erasure_reason space plan ≡ ok (units "The plan"))
        ↔ (IsAccepted space 10 500 plan (units "The plan")))
    × ((validate_artifact_note space plan ≡ ok (units "The plan")) ↔ (
        ((plan ≡ none) × (units "The plan" ≡ [])) ⊎ IsAccepted space 0 500 plan (units "The plan")))
validated_iff_example = validated_iff space plan (units "The plan")

plan_trim : IsAccepted space 1 160 plan (units "The plan")
plan_trim = validated_iff_example.0.0 plan-accepted

blank-refused :
    validate_artifact_title space (some (text (units "  "))) ≡ err invalid_artifact_title
unfolding validate_artifact_title units push_units
blank-refused = refl

-- The letter é has two bytes, and a pair of surrogates four.
abbrev accents : Units
accents = 233 ∷ 0xD83D ∷ 0xDE00 ∷ 97 ∷ []

accents-size : byte_size false accents ≡ 7
unfolding byte_size
accents-size = refl

abbrev no_hash : Units → String
no_hash s = "-"

short_content_accepted_example :
    (n : ℕ) × (validate_artifact_content no_hash (some (text accents))
      ≡ ok (record { content = accents; content_hash = "-"; byte_size = n }))
    × (4 ≤ n)
    × (n ≤ 12)
short_content_accepted_example = short_content_accepted no_hash accents (omega arith) (omega arith)

complete-accepted :
    validate_artifact_review_input (some (text (units "approved"))) (some (text (units "complete")))
    ≡ ok (approved, units "complete")
unfolding validate_artifact_review_input same units push_units
complete-accepted = refl

outdated-refused :
    validate_artifact_review_input (some (text (units "approved"))) (some (text (units "outdated")))
    ≡ err invalid_review_reason
unfolding validate_artifact_review_input same units push_units
outdated-refused = refl

version-refused :
    validate_expected_artifact_version (some (number 0)) ≡ err invalid_expected_version
unfolding validate_expected_artifact_version
version-refused = refl

media_type-default : validate_artifact_media_type none ≡ ok artifact_media_type
unfolding validate_artifact_media_type
media_type-default = refl

media_type-refused :
    validate_artifact_media_type (some (text (units "text/html"))) ≡ err invalid_artifact_media_type
unfolding validate_artifact_media_type same units push_units
media_type-refused = refl

duplicate-superseded :
    validate_artifact_supersession_reason (some (text (units "duplicate_output")))
    ≡ ok (units "duplicate_output")
unfolding validate_artifact_supersession_reason same units push_units
duplicate-superseded = refl

-- A reason to retract is no reason to supersede.
error-not_superseded :
    validate_artifact_supersession_reason (some (text (units "declared_in_error")))
    ≡ err invalid_supersession_reason
unfolding validate_artifact_supersession_reason same units push_units
error-not_superseded = refl

error-retracted :
    validate_artifact_supersession_retraction_reason (some (text (units "declared_in_error")))
    ≡ ok (units "declared_in_error")
unfolding validate_artifact_supersession_retraction_reason same units push_units
error-retracted = refl
