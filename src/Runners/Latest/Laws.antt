-- ===== src/Runners/Latest/Laws.antt =====
-- The report that is chosen is the latest one (src/domain/runners/capability-protocol.ts,
-- src/domain/runners/engine-inventory-eligibility.ts).
use nexusos_agentic.Base.{
  ◌≡◌, ◌⊎◌, refl, sym, true, false, ◌&&◌, Option, none, some, List, [], ◌∷◌, arith, All, Any,
  All-mono, eq_iff, inl, inr, Bool-cases,
}
use nexusos_agentic.Runtime.{Dates}
use nexusos_agentic.Text.{str_lt_trans, str_lt_irrefl}
use nexusos_agentic.Runners.Latest.{
  Report, is_after, is_well_formed, keep_latest, reduce_latest, latest_runner_capability_report,
}

module _ {B : Type 0} where
  is_after_trans :
      (x r l : Report B) → is_after x r ≡ true → is_after r l ≡ true → is_after x l ≡ true
  is_after_trans x r l h k = ground (
    arith,
    str_lt_trans l.received_at r.received_at x.received_at,
    str_lt_trans l.report_id r.report_id x.report_id,
    eq_iff x.received_at r.received_at,
    eq_iff r.received_at l.received_at,
    eq_iff x.received_at l.received_at,
  )

  is_after_irrefl : (x : Report B) → is_after x x ≡ false
  is_after_irrefl x = ground (arith, str_lt_irrefl x.received_at, str_lt_irrefl x.report_id)

  -- `l` is well formed, and no well-formed report of the list is after it.
  abbrev pub Outlasts : Dates → List (Report B) → Report B → Type 0
  Outlasts d rs l = All (λ x. is_well_formed d x ≡ true → is_after x l ≡ false) rs

  abbrev pub Found : Report B → List (Report B) → Type 0
  Found l rs = Any (λ x. x ≡ l) rs

  Outlasts-step :
      (d : Dates) (rs : List (Report B)) (l r : Report B)
      → is_after r l ≡ true
      → Outlasts d rs l
      → Outlasts d rs r
  Outlasts-step d rs l r a = All-mono _ _ (λ x h w. ground (arith, h w, is_after_trans x r l)) rs

  -- What the reduction has chosen so far, of the reports that it has seen.
  pub data Chosen (d : Dates) (rs : List (Report B)) : Option (Report B) → Type 0 where
    nothing : All (λ x. is_well_formed d x ≡ false) rs → Chosen d rs none
    latest :
        (l : Report B)
        → is_well_formed d l ≡ true
        → Found l rs
        → Outlasts d rs l
        → Chosen d rs (some l)

  is_after_asymm : (a b : Report B) → is_after a b ≡ true → is_after b a ≡ false
  is_after_asymm a b h = elim (Bool-cases (is_after b a)) [
    | inl k ↦ ground (arith, is_after_trans a b a h k, is_after_irrefl a)
    | inr k ↦ k
  ]

  -- The reduction from a report that it has chosen already.
  record Best (d : Dates) (rs : List (Report B)) (l m : Report B) : Type 0 where
    reduces : reduce_latest d (some l) rs ≡ some m
    well_formed : is_well_formed d m ≡ true
    found : (m ≡ l) ⊎ Found m rs
    upward : (m ≡ l) ⊎ (is_after m l ≡ true)
    outlasts : Outlasts d rs m

  not_after_kept :
      (l m r : Report B)
      → is_after r l ≡ false
      → (m ≡ l) ⊎ (is_after m l ≡ true)
      → is_after r m ≡ false
  not_after_kept l m r h (inl e) = rw e h
  not_after_kept l m r h (inr k) = elim (Bool-cases (is_after r m)) [
    | inl a ↦ ground (arith, is_after_trans r m l a k)
    | inr a ↦ a
  ]

  not_after_newer : (m r : Report B) → (m ≡ r) ⊎ (is_after m r ≡ true) → is_after r m ≡ false
  not_after_newer m r (inl e) = rw e (is_after_irrefl r)
  not_after_newer m r (inr k) = is_after_asymm m r k

  either_new :
      (l m r : Report B) (rs : List (Report B)) → (m ≡ r) ⊎ Found m rs → (m ≡ l) ⊎ Found m (r ∷ rs)
  either_new l m r rs (inl e) = inr (inl (sym e))
  either_new l m r rs (inr k) = inr (inr k)

  either_old :
      (l m r : Report B) (rs : List (Report B)) → (m ≡ l) ⊎ Found m rs → (m ≡ l) ⊎ Found m (r ∷ rs)
  either_old l m r rs (inl e) = inl e
  either_old l m r rs (inr k) = inr (inr k)

  upward_new :
      (l m r : Report B)
      → is_after r l ≡ true
      → (m ≡ r) ⊎ (is_after m r ≡ true)
      → (m ≡ l) ⊎ (is_after m l ≡ true)
  upward_new l m r h (inl e) = inr (rw e h)
  upward_new l m r h (inr k) = inr (is_after_trans m r l k h)

  reduce-Best :
      (d : Dates) (rs : List (Report B)) (l : Report B)
      → is_well_formed d l ≡ true
      → (m : Report B) × Best d rs l m
  unfolding reduce_latest
  reduce-Best d [] l w = (
    l,
    record { reduces = refl; well_formed = w; found = inl refl; upward = inl refl; outlasts = tt },
  )
  reduce-Best d (r ∷ rs) l w = elim (Bool-cases (is_well_formed d r && is_after r l)) [
    | inl new ↦
        (let (m, b) = reduce-Best d rs r (ground arith) in
          (
            m,
            record {
              reduces = rw (new, keep_latest) b.reduces;
              well_formed = b.well_formed;
              found = either_new l m r rs b.found;
              upward = upward_new l m r (ground arith) b.upward;
              outlasts = ((λ _. not_after_newer m r b.upward), b.outlasts);
            },
          ))
    | inr old ↦
        (let (m, b) = reduce-Best d rs l w in
          (
            m,
            record {
              reduces = rw (old, keep_latest) b.reduces;
              well_formed = b.well_formed;
              found = either_old l m r rs b.found;
              upward = b.upward;
              outlasts = ((λ v. not_after_kept l m r (ground arith) b.upward), b.outlasts);
            },
          ))
  ]

  Best-Chosen :
      (d : Dates) (rs : List (Report B)) (r m : Report B)
      → Best d rs r m
      → Chosen d (r ∷ rs) (some m)
  Best-Chosen d rs r m b =
      latest m b.well_formed (found_first b.found) ((λ _. not_after_newer m r b.upward), b.outlasts)
    where
      found_first : (m ≡ r) ⊎ Found m rs → Found m (r ∷ rs)
      found_first (inl e) = inl (sym e)
      found_first (inr k) = inr k

  Chosen-cons :
      (d : Dates) (rs : List (Report B)) (r : Report B) (o : Option (Report B))
      → is_well_formed d r ≡ false
      → Chosen d rs o
      → Chosen d (r ∷ rs) o
  Chosen-cons d rs r o bad (nothing h) = nothing (bad, h)
  Chosen-cons d rs r o bad (latest l w k h) = latest l w (inr k) ((λ v. cc (v, bad)), h)

  -- The capability report that admission looks at is the latest one: if there is any report with a
  -- canonical time and a well-formed id, the choice is one of the list, itself well formed, and no
  -- well-formed report of the list was received later, or at the same time with a greater id;
  -- otherwise there is no choice.
  pub latest_report-Chosen :
      (d : Dates) (rs : List (Report B)) → Chosen d rs (latest_runner_capability_report d rs)
  unfolding latest_runner_capability_report
  latest_report-Chosen d [] = nothing tt
  latest_report-Chosen d (r ∷ rs) = elim (Bool-cases (is_well_formed d r)) [
    | inl good ↦
        (let (m, b) = reduce-Best d rs r good in
          rw (good, reduce_latest, keep_latest) (rw b.reduces (Best-Chosen d rs r m b)))
    | inr bad ↦
        rw (bad, reduce_latest, keep_latest) (Chosen-cons d rs r _ bad (latest_report-Chosen d rs))
  ]
