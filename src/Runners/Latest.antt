-- ===== src/Runners/Latest.antt =====
-- The latest report of a runner, twice: the reduction of latestRunnerCapabilityReport
-- (src/domain/runners/capability-protocol.ts) and the sort of latestEngineReport
-- (src/domain/runners/engine-inventory-eligibility.ts).
pub mod Laws
use nexusos_agentic.Base.{
  ℕ, ◌≡◌, ◌≢◌, ◌⊎◌, refl, String, Bool, true, false, not, ◌&&◌, ◌||◌, Option, none, some, List, [],
  ◌∷◌, arith, All, Any, str_eq, eq_iff, if◌then◌else◌, inl, inr, Bool-cases, sym, ◌∙◌,
}
use nexusos_agentic.Runtime.{Dates}
use nexusos_agentic.Text.{
  str_lt, units, lex_lt, lex_lt_irrefl, lex_lt_trans, lex_lt_asymm, lex_lt_total,
}
use nexusos_agentic.Runners.Basics.{is_canonical_timestamp, is_capability_report_id}

-- A report by what orders it, when it was received and its id, and the rest of it.
pub record Report (B : Type 0) : Type 0 where
  pub report_id : String
  pub received_at : String
  pub body : B

module _ {B : Type 0} where
  -- `report` is after `latest`: received later, or at the same time with a greater id.
  abbrev pub is_after : Report B → Report B → Bool
  is_after report latest =
      str_lt latest.received_at report.received_at
      || (str_eq report.received_at latest.received_at && str_lt latest.report_id report.report_id)

  unfoldable pub is_well_formed : Dates → Report B → Bool
  is_well_formed d r = is_canonical_timestamp d r.received_at && is_capability_report_id r.report_id

  -- One step of the reduction.
  unfoldable pub keep_latest : Dates → Option (Report B) → Report B → Option (Report B)
  keep_latest d none report = if is_well_formed d report then some report else none
  keep_latest d (some latest) report =
      if is_well_formed d report && is_after report latest then some report else some latest

  unfoldable pub reduce_latest : Dates → Option (Report B) → List (Report B) → Option (Report B)
  unfolding keep_latest
  reduce_latest d latest [] = latest
  reduce_latest d latest (r ∷ rs) = reduce_latest d (keep_latest d latest r) rs

  unfoldable pub latest_runner_capability_report : Dates → List (Report B) → Option (Report B)
  unfolding reduce_latest
  latest_runner_capability_report d rs = reduce_latest d none rs

  -- The comparison of the sort says that `left` stays before `right`: it is not negative only where
  -- `right` is the later one.
  unfoldable pub stays_before : Report B → Report B → Bool
  stays_before left right =
      if not (str_eq left.received_at right.received_at)
      then not (str_lt left.received_at right.received_at)
      else if str_eq left.report_id right.report_id
      then true
      else not (str_lt left.report_id right.report_id)

  unfoldable pub insert_sorted : Report B → List (Report B) → List (Report B)
  unfolding stays_before
  insert_sorted r [] = r ∷ []
  insert_sorted r (x ∷ xs) = if stays_before r x then r ∷ x ∷ xs else x ∷ insert_sorted r xs

  -- The stable sort of the runtime, newest first.
  unfoldable pub sort_newest : List (Report B) → List (Report B)
  unfolding insert_sorted
  sort_newest [] = []
  sort_newest (r ∷ rs) = insert_sorted r (sort_newest rs)

  abbrev pub first : List (Report B) → Option (Report B)
  first [] = none
  first (r ∷ rs) = some r

  unfoldable pub latest_engine_report : List (Report B) → Option (Report B)
  unfolding sort_newest
  latest_engine_report rs = first (sort_newest rs)
