-- ===== src/Artifacts/Trimmed.antt =====
-- Titles, notes and reasons of an erasure, which are trimmed (src/domain/artifacts/artifact.ts).
use nexusos_agentic.Base.{
  ℕ, ◌≡◌, ◌≢◌, ◌≤◌, ◌⊎◌, ◌↔◌, refl, sym, ap, ◌∙◌, Bool, ◌||◌, Option, none, some, [], length, ltb,
  arith, if◌then◌else◌, Result, ok, err, ok_injective, inl, inr,
}
use nexusos_agentic.Json.{Units, Value, null, bool, number, array, object, text}
use nexusos_agentic.Artifacts.{
  ArtifactError, invalid_artifact_note, invalid_artifact_erasure_reason, trim, trimmed,
  invalid_artifact_title, validate_artifact_title, validate_artifact_note,
  validate_artifact_erasure_reason,
}
use nexusos_agentic.Artifacts.Trim.{IsTrimOf, trim_iff}

-- A value is a text whose trimmed form has a length between two bounds.
pub record IsAccepted (p : ℕ → Bool) (low high : ℕ) (v : Option Value) (t : Units) : Type 0 where
  pub given : Units
  pub is_text : v ≡ some (text given)
  pub is_trim : IsTrimOf p given t
  pub least : low ≤ length t
  pub most : length t ≤ high

within_iff :
    (e : ArtifactError) (low high : ℕ) (x t : Units)
    → ((if ltb (length x) low || ltb high (length x) then err e else ok x) ≡ ok t)
      ↔ ((x ≡ t) × (low ≤ length t) × (length t ≤ high))
within_iff e low high x t = ground arith

none-IsAccepted :
    (p : ℕ → Bool) (e : ArtifactError) (low high : ℕ) (v : Option Value) (t : Units)
    → ((s : Units) → v ≢ some (text s))
    → (Path (Result ArtifactError Units) (err e) (ok t)) ↔ IsAccepted p low high v t
none-IsAccepted p e low high v t h =
    ((λ bad. let no : ⊥ = cc in absurd no), (λ k. absurd (h k.given k.is_text)))

trimmed_iff :
    (p : ℕ → Bool) (e : ArtifactError) (low high : ℕ) (value : Option Value) (t : Units)
    → (trimmed p e low high value ≡ ok t) ↔ IsAccepted p low high value t
unfolding trimmed
trimmed_iff p e low high (some (text s)) t = (
  (λ h.
      let (same, least, most) = (within_iff e low high (trim p s) t).0 h in
      record {
        given = s;
        is_text = refl;
        is_trim = (trim_iff p s t).0 same;
        least = least;
        most = most;
      }),
  (λ k.
      let same : s ≡ k.given = cc (k.is_text) in
      let trims : trim p s ≡ t = ap (trim p) same ∙ (trim_iff p k.given t).1 k.is_trim in
      (within_iff e low high (trim p s) t).1 (trims, k.least, k.most)),
)
trimmed_iff p e low high none t =
    none-IsAccepted p e low high _ t (λ s h. let no : ⊥ = cc in absurd no)
trimmed_iff p e low high (some null) t =
    none-IsAccepted p e low high _ t (λ s h. let no : ⊥ = cc in absurd no)
trimmed_iff p e low high (some (bool b)) t =
    none-IsAccepted p e low high _ t (λ s h. let no : ⊥ = cc in absurd no)
trimmed_iff p e low high (some (number n)) t =
    none-IsAccepted p e low high _ t (λ s h. let no : ⊥ = cc in absurd no)
trimmed_iff p e low high (some (array xs)) t =
    none-IsAccepted p e low high _ t (λ s h. let no : ⊥ = cc in absurd no)
trimmed_iff p e low high (some (object fs)) t =
    none-IsAccepted p e low high _ t (λ s h. let no : ⊥ = cc in absurd no)

-- A title of 1 to 160 units, a reason of an erasure of 10 to 500, and a note of up to 500 or none at
-- all: each is accepted exactly when it is a text that has such a length without the white space
-- around it, and that trimmed text is what is returned, an empty one where there is no note.
pub validated_iff :
    (p : ℕ → Bool) (v : Option Value) (t : Units)
    → ((validate_artifact_title p v ≡ ok t) ↔ IsAccepted p 1 160 v t)
      × ((validate_artifact_erasure_reason p v ≡ ok t) ↔ IsAccepted p 10 500 v t)
      × ((validate_artifact_note p v ≡ ok t) ↔ (((v ≡ none) × (t ≡ [])) ⊎ IsAccepted p 0 500 v t))
unfolding validate_artifact_title validate_artifact_note validate_artifact_erasure_reason
validated_iff p v t = (
  trimmed_iff p invalid_artifact_title 1 160 v t,
  trimmed_iff p invalid_artifact_erasure_reason 10 500 v t,
  note_iff v,
)
  where
    note_iff :
        (v : Option Value)
        → (validate_artifact_note p v ≡ ok t) ↔ (((v ≡ none) × (t ≡ [])) ⊎ IsAccepted p 0 500 v t)
    note_iff none = (
      (λ h. inl (refl, sym (ok_injective h))),
      (λ h. elim h [
        | inl (_, e) ↦ ap ok (sym e)
        | inr k ↦ let no : ⊥ = cc (k.is_text) in absurd no
      ]),
    )
    note_iff (some n) =
        let (there, back) = trimmed_iff p invalid_artifact_note 0 500 (some n) t in
        (
          (λ h. inr (there h)),
          (λ h. elim h [ inl (e, _) ↦ let no : ⊥ = cc in absurd no | inr k ↦ back k ]),
        )
