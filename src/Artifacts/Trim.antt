-- ===== src/Artifacts/Trim.antt =====
-- What trimming a text leaves of it, as src/domain/artifacts/artifact.ts trims.
use mathlib.Core.Path.{subst}
use nexusos_agentic.Base.{
  ℕ, ◌≡◌, ◌↔◌, refl, sym, ap, ◌∙◌, Bool, true, false, [], ◌∷◌, ◌++◌, All, inl, inr, Bool-cases,
}
use nexusos_agentic.Json.{Units}
use nexusos_agentic.Artifacts.{trim_start, trim_end, kept, trim}

-- All units are white space.
abbrev pub IsBlank : (ℕ → Bool) → Units → Type 0
IsBlank p = All (λ c. p c ≡ true)

-- The first unit, if there is one, is not white space; and so the last one.
abbrev pub IsFirmAtStart : (ℕ → Bool) → Units → Type 0
IsFirmAtStart p [] = Unit
IsFirmAtStart p (c ∷ cs) = p c ≡ false

abbrev pub IsFirmAtEnd : (ℕ → Bool) → Units → Type 0
IsFirmAtEnd p [] = Unit
IsFirmAtEnd p (c ∷ []) = p c ≡ false
IsFirmAtEnd p (c ∷ d ∷ cs) = IsFirmAtEnd p (d ∷ cs)

-- A text without the white space around it: it neither begins nor ends with any, and only that
-- was taken off.
pub record IsTrimOf (p : ℕ → Bool) (s t : Units) : Type 0 where
  pub lead : Units
  pub trail : Units
  pub splits : s ≡ lead ++ (t ++ trail)
  pub lead_blank : IsBlank p lead
  pub trail_blank : IsBlank p trail
  pub start_firm : IsFirmAtStart p t
  pub end_firm : IsFirmAtEnd p t

trim_start-splits :
    (p : ℕ → Bool) (s : Units)
    → (lead : Units) × (s ≡ lead ++ trim_start p s)
      × IsBlank p lead
      × IsFirmAtStart p (trim_start p s)
unfolding trim_start
trim_start-splits p [] = ([], refl, tt, tt)
trim_start-splits p (c ∷ cs) =
    let (lead, splits, blank, firm) = trim_start-splits p cs in
    elim (Bool-cases (p c)) [
      | inl h ↦ (c ∷ lead, rw h (ap (◌∷◌ c) splits), (h, blank), rw h firm)
      | inr h ↦ ([], rw h refl, tt, rw h h)
    ]

trim_end-splits :
    (p : ℕ → Bool) (s : Units)
    → (trail : Units) × (s ≡ trim_end p s ++ trail) × IsBlank p trail × IsFirmAtEnd p (trim_end p s)
unfolding trim_end
trim_end-splits p [] = ([], refl, tt, tt)
trim_end-splits p (c ∷ cs) =
    let (trail, splits, blank, firm) = trim_end-splits p cs in
    before (p c) refl (trim_end p cs) trail splits blank firm
  where
    before :
        (b : Bool)
        → p c ≡ b
        → (left rest : Units) → cs ≡ left ++ rest
        → IsBlank p rest
        → IsFirmAtEnd p left
        → (trail : Units) × (c ∷ cs ≡ kept b c left ++ trail)
          × IsBlank p trail
          × IsFirmAtEnd p (kept b c left)
    before true h [] rest s blank firm = (c ∷ rest, ap (◌∷◌ c) s, (h, blank), tt)
    before false h [] rest s blank firm = (rest, ap (◌∷◌ c) s, blank, h)
    before true h (d ∷ ds) rest s blank firm = (rest, ap (◌∷◌ c) s, blank, firm)
    before false h (d ∷ ds) rest s blank firm = (rest, ap (◌∷◌ c) s, blank, firm)

trim_end-IsFirmAtStart :
    (p : ℕ → Bool) (s : Units) → IsFirmAtStart p s → IsFirmAtStart p (trim_end p s)
unfolding trim_end
trim_end-IsFirmAtStart p [] h = tt
trim_end-IsFirmAtStart p (c ∷ cs) h = rw h h

trim-IsTrimOf : (p : ℕ → Bool) (s : Units) → IsTrimOf p s (trim p s)
unfolding trim
trim-IsTrimOf p s =
    let (lead, at_start, lead_blank, start_firm) = trim_start-splits p s in
    let (trail, at_end, trail_blank, end_firm) = trim_end-splits p (trim_start p s) in
    record {
      lead = lead;
      trail = trail;
      splits = at_start ∙ ap (◌++◌ lead) at_end;
      lead_blank = lead_blank;
      trail_blank = trail_blank;
      start_firm = trim_end-IsFirmAtStart p (trim_start p s) start_firm;
      end_firm = end_firm;
    }

trim_start-blank :
    (p : ℕ → Bool) (lead s : Units) → IsBlank p lead → trim_start p (lead ++ s) ≡ trim_start p s
unfolding trim_start
trim_start-blank p [] s h = refl
trim_start-blank p (c ∷ cs) s h = rw (h.0) (trim_start-blank p cs s h.1)

kept-firm : (b : Bool) (c d : ℕ) (ds : Units) → kept b c (d ∷ ds) ≡ c ∷ d ∷ ds
kept-firm true c d ds = refl
kept-firm false c d ds = refl

trim_start-gone : (p : ℕ → Bool) (s : Units) → IsBlank p s → trim_start p s ≡ []
unfolding trim_start
trim_start-gone p [] h = refl
trim_start-gone p (c ∷ cs) h = rw (h.0) (trim_start-gone p cs h.1)

trim_end-firm :
    (p : ℕ → Bool) (t trail : Units)
    → IsFirmAtEnd p t
    → IsBlank p trail
    → trim_end p (t ++ trail) ≡ t
unfolding trim_end
trim_end-firm p [] [] h blank = refl
trim_end-firm p [] (c ∷ cs) h blank = rw (blank.0, trim_end-firm p [] cs tt blank.1) refl
trim_end-firm p (c ∷ []) trail h blank = rw h rw (trim_end-firm p [] trail tt blank) refl
trim_end-firm p (c ∷ d ∷ ds) trail h blank =
    ap (kept (p c) c) (trim_end-firm p (d ∷ ds) trail h blank) ∙ kept-firm (p c) c d ds

trim_end-nothing :
    (p : ℕ → Bool) (trail : Units) → IsBlank p trail → trim_end p [] ≡ trim_end p trail
unfolding trim_end
trim_end-nothing p trail h = sym (trim_end-firm p [] trail tt h)

trim_start-firm :
    (p : ℕ → Bool) (t trail : Units)
    → IsFirmAtStart p t
    → IsBlank p trail
    → trim_end p (trim_start p (t ++ trail)) ≡ trim_end p (t ++ trail)
unfolding trim_start
trim_start-firm p [] trail h blank =
    ap (trim_end p) (trim_start-gone p trail blank) ∙ trim_end-nothing p trail blank
trim_start-firm p (c ∷ cs) trail h blank = rw h refl

-- Trimming a text gives its one trimmed form.
pub trim_iff : (p : ℕ → Bool) (s t : Units) → (trim p s ≡ t) ↔ IsTrimOf p s t
unfolding trim
trim_iff p s t = (
  (λ h. subst (IsTrimOf p s) h (trim-IsTrimOf p s)),
  (λ k.
      ap (λ x. trim_end p (trim_start p x)) k.splits
      ∙ (ap (trim_end p) (trim_start-blank p k.lead (t ++ k.trail) k.lead_blank)
          ∙ (trim_start-firm p t k.trail k.start_firm k.trail_blank
              ∙ trim_end-firm p t k.trail k.end_firm k.trail_blank))),
)
