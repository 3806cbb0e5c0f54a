-- ===== src/Artifacts/Review.antt =====
-- Reviews that are accepted (src/domain/artifacts/review.ts).
use nexusos_agentic.Base.{
  ◌≡◌, refl, sym, ap, ◌∙◌, true, false, Option, none, some, ok, >>=-eq-ok, arith, [], ◌∷◌,
}
use nexusos_agentic.Text.{units, push_units}
use nexusos_agentic.Json.{Units, Value, null, bool, number, text, array, object, same}
use nexusos_agentic.Artifacts.{
  Verdict, approved, changes_requested, verdict_of, serves, reason_for,
  validate_artifact_review_input,
}

serves-changes : (s : Units) → serves approved s ≡ true → serves changes_requested s ≡ false
unfolding same units push_units
serves-changes [] h = refl
serves-changes (c ∷ cs) h = ground arith

serves-same : (a b : Verdict) (s : Units) → serves a s ≡ true → serves b s ≡ true → a ≡ b
serves-same approved approved s h k = refl
serves-same changes_requested changes_requested s h k = refl
serves-same approved changes_requested s h k = let other = serves-changes s h in ground arith
serves-same changes_requested approved s h k = let other = serves-changes s k in ground arith

reason_for-eq-ok :
    (v : Verdict) (o : Option Value) (r : Verdict × Units)
    → reason_for v o ≡ ok r
    → (s : Units) × (o ≡ some (text s)) × (serves v s ≡ true) × (r ≡ (v, s))
unfolding reason_for
reason_for-eq-ok v (some (text s)) r h = (s, refl, ground arith, ground arith)
reason_for-eq-ok v none r h = cc
reason_for-eq-ok v (some null) r h = cc
reason_for-eq-ok v (some (bool b)) r h = cc
reason_for-eq-ok v (some (number n)) r h = cc
reason_for-eq-ok v (some (array xs)) r h = cc
reason_for-eq-ok v (some (object fs)) r h = cc

text_injective : {s t : Units} → Path (Option Value) (some (text s)) (some (text t)) → s ≡ t
text_injective h = cc

-- The reason of a review that is accepted fixes its verdict: two reviews with the same reason that
-- are both accepted are the same.
pub reason_fixes_verdict :
    (v w reason : Option Value) (a b : Verdict × Units)
    → validate_artifact_review_input v reason ≡ ok a
    → validate_artifact_review_input w reason ≡ ok b
    → a ≡ b
unfolding validate_artifact_review_input
reason_fixes_verdict v w reason a b h k =
    let (x, _, hx) = >>=-eq-ok (verdict_of v) _ h in
    let (y, _, ky) = >>=-eq-ok (verdict_of w) _ k in
    let (s, is, xs, ax) = reason_for-eq-ok x reason a hx in
    let (t, is_too, yt, by) = reason_for-eq-ok y reason b ky in
    let same_text = text_injective (sym is ∙ is_too) in
    let same_verdict = serves-same x y s xs (ap (serves y) same_text ∙ yt) in
    ax ∙ (ap (λ z. (z, s)) same_verdict ∙ (ap (λ z. (y, z)) same_text ∙ sym by))
