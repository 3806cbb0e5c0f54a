-- ===== src/Runners/Deadline/Laws.antt =====
-- What the deadlines and the retention of prompts guarantee
-- (src/domain/runners/deadline-reconciliation.ts, src/domain/runners/prompt-retention.ts).
use Prim.Native.Char.{Char, code}
use text.Mathlib.TextEquality.{Char-path}
use nexusos_agentic.Base.{
  ℕ, ◌-◌, ◌≡◌, ◌≤◌, ◌<◌, ◌⊎◌, ◌↔◌, refl, sym, ◌∙◌, ◌++◌, map, length, All, ◌==◌, String, true,
  false, Option, none, some, List, [], ◌∷◌, arith, includes, eq_iff, Option-cases, inl, inr, ok,
}
use nexusos_agentic.Runtime.{Dates, HasRoundTrip, iso_before, iso_round_trip}
use nexusos_agentic.Text.{
  units, fits, literal, push_units, str_le, Class, times, hex, is_timestamp_shape,
}
use nexusos_agentic.Runners.Basics.{is_canonical_timestamp, is_run_id, is_prefixed_id}
use nexusos_agentic.Runners.Deadline.{
  deadline_operation_id, slice_from, prompt_retention_cutoff, prompt_retention_ms,
  is_prompt_retention_eligible, terminal_statuses, cutoff, assert_canonical_timestamp,
  DeadlineRaceSnapshot, is_benign_deadline_race, is_race, is_invalid_date,
}

pub cutoff-eq-ok :
    (d : Dates) (span : ℕ) (now c : String)
    → cutoff d span now ≡ ok c
    → (is_canonical_timestamp d now ≡ true)
      × ((ms : ℕ) × (d.parse now ≡ some ms) × (span ≤ ms) × (d.to_iso (ms - span) ≡ some c))
unfolding cutoff assert_canonical_timestamp iso_before
cutoff-eq-ok d span now c h = elim (Option-cases (d.parse now)) [
  | inl e ↦ ground arith
  | inr (ms, e) ↦ (ground arith, (ms, e, ground arith, ground arith))
]

-- A canonical timestamp has the shape of one, and is of a date.
canonical_is_valid :
    (d : Dates) (value : String)
    → is_canonical_timestamp d value ≡ true
    → (is_timestamp_shape value ≡ true) × (is_invalid_date d value ≡ false)
unfolding is_canonical_timestamp is_invalid_date iso_round_trip
canonical_is_valid d value h = elim (Option-cases (d.parse value)) [
  | inl e ↦ ground arith
  | inr (ms, e) ↦ ground arith
]

-- A prompt is retained for 30 days from when it was recorded: where the text of an instant reads
-- back as that instant, a prompt is eligible for erasure exactly when its run is completed,
-- canceled or expired and the prompt was recorded at the retention cutoff of that time, or before.
pub eligible_iff_cutoff :
    (d : Dates) (now recorded c status : String)
    → HasRoundTrip d
    → is_canonical_timestamp d recorded ≡ true
    → prompt_retention_cutoff d now ≡ ok c
    → (is_prompt_retention_eligible d now recorded status ≡ ok true) ↔ (
        (includes terminal_statuses status ≡ true)
        × ((r : ℕ) × (last : ℕ) × (d.parse recorded ≡ some r)
            × (d.parse c ≡ some last)
            × (r ≤ last)))
unfolding is_prompt_retention_eligible prompt_retention_cutoff assert_canonical_timestamp
eligible_iff_cutoff d now recorded c status law canon cut =
    let (fresh, (ms, parsed, fits_span, printed)) = cutoff-eq-ok d prompt_retention_ms now c cut in
    let back = law.parse-to_iso (ms - prompt_retention_ms) c printed in
    elim (Option-cases (d.parse recorded)) [
      | inl e ↦ ((λ h. ground arith), (λ h. ground arith))
      | inr (r, e) ↦ (
        (λ h. (ground arith, (r, ms - prompt_retention_ms, e, back, ground arith))),
        (λ (t, (r', last, p, q, le)).
            ground (arith, canonical_is_valid d recorded canon, canonical_is_valid d now fresh)),
      )
    ]

-- A text whose first unit is `k`, no surrogate, begins with the character of that number.
unit_head :
    (k : ℕ) (ks : List Class) (s : String)
    → k < 0xD800
    → fits ((λ c. c == k) ∷ ks) (units s) ≡ true
    → (c : Char) × (t : String) × (s ≡ String.◌∷◌ c t) × (code c ≡ k) × (fits ks (units t) ≡ true)
unfolding units fits push_units
unit_head k ks String.[] h e = cc
unit_head k ks (String.◌∷◌ c t) h e = (c, t, refl, ground arith, ground arith)

-- Texts of one literal prefix that agree after it are equal.
prefix_injective :
    (p : List ℕ) (ks : List Class) (s t : String)
    → All (λ k. k < 0xD800) p
    → fits (map (λ u c. c == u) p ++ ks) (units s) ≡ true
    → fits (map (λ u c. c == u) p ++ ks) (units t) ≡ true
    → slice_from (length p) s ≡ slice_from (length p) t
    → s ≡ t
unfolding slice_from
prefix_injective [] ks s t h a b e = e
prefix_injective (k ∷ p) ks s t h a b e =
    let (c, s', se, cs, fs) = unit_head k (map (λ u v. v == u) p ++ ks) s h.0 a in
    let (d, t', te, ct, ft) = unit_head k (map (λ u v. v == u) p ++ ks) t h.0 b in
    let e' : slice_from (length p) s' ≡ slice_from (length p) t' = rw (se, te) at e in
    cc (Char-path c d (cs ∙ sym ct), prefix_injective p ks s' t' h.1 fs ft e')

operation_id-eq-ok :
    (r o : String)
    → deadline_operation_id r ≡ ok o
    → (is_run_id r ≡ true) × (String.◌∷◌ "o" (String.◌∷◌ "p" (String.◌∷◌ "_" (slice_from 4 r))) ≡ o)
unfolding deadline_operation_id
operation_id-eq-ok r o h = ground arith

same_rest :
    (s t : String)
    → String.◌∷◌ "o" (String.◌∷◌ "p" (String.◌∷◌ "_" s))
      ≡ String.◌∷◌ "o" (String.◌∷◌ "p" (String.◌∷◌ "_" t))
    → s ≡ t
same_rest s t e = cc

-- Distinct runs have distinct operation ids for their expiry: the ids of two runs are equal only if
-- the runs are.
pub deadline_operation_id_injective :
    (r s o : String) → deadline_operation_id r ≡ ok o → deadline_operation_id s ≡ ok o → r ≡ s
unfolding is_prefixed_id literal
deadline_operation_id_injective r s o h k =
    let (a, p) = operation_id-eq-ok r o h in
    let (b, q) = operation_id-eq-ok s o k in
    prefix_injective (units "run_") (times 32 hex) r s (omega arith) a b
      (same_rest (slice_from 4 r) (slice_from 4 s) (p ∙ sym q))

-- A candidate that could not be expired is no benign race exactly when the time of observation is
-- canonical and nothing was found, or the run is still queued or leased, at the version that was
-- read, with its deadline reached.
pub not_benign_iff :
    (d : Dates) (version : ℕ) (observed : String) (current : Option DeadlineRaceSnapshot)
    → (is_benign_deadline_race d version observed current ≡ ok false) ↔ (
        (is_canonical_timestamp d observed ≡ true)
        × ((current ≡ none)
            ⊎ ((c : DeadlineRaceSnapshot) × (current ≡ some c)
                × (((c.status ≡ "queued") ⊎ (c.status ≡ "leased"))
                    × (c.version ≡ version)
                    × (str_le c.deadline_at observed ≡ true)))))
unfolding is_benign_deadline_race is_race assert_canonical_timestamp str_le
not_benign_iff d version observed none = ground (arith, canonical_is_valid d observed)
not_benign_iff d version observed (some c) = (
  (λ h. (
    ground arith,
    inr (c, refl, ground (arith, eq_iff "queued" c.status, eq_iff "leased" c.status)),
  )),
  (λ (k, h). elim h [
    | inl e ↦ cc
    | inr (c', e, f) ↦
        ground
          (arith, canonical_is_valid d observed, eq_iff "queued" c.status, eq_iff "leased" c.status)
  ]),
)
