-- ===== src/Runners/Policy/Updated.antt =====
-- The times of updates of a policy (src/domain/runners/admission-policy.ts).
use nexusos_agentic.Base.{
  ℕ, ◌+◌, ◌≡◌, ◌<◌, refl, sym, ap, ◌∙◌, Bool, true, false, not, ◌||◌, Option, none, some, ◌⊎◌, inl,
  inr, arith, if◌then◌else◌,
}
use nexusos_agentic.Text.{lex_lt}
use nexusos_agentic.Json.{Units}
use nexusos_agentic.Workflow.Records.{UnitDates, is_canonical}
use nexusos_agentic.Workflow.Records.Steps.{some_injective}
use nexusos_agentic.Runners.Policy.{one_later, next_policy_updated_at}

-- What the source relies on: the text of an instant is parsed to it, and texts of the form
-- `YYYY-MM-DDTHH:MM:SS.sssZ` are in the order of their instants.
pub record InOrder (d : UnitDates) : Type 0 where
  pub parsed : (ms : ℕ) (s : Units) → d.to_iso ms ≡ some s → d.parse s ≡ some ms
  pub ordered :
      (s t : Units) (m n : ℕ)
      → is_canonical d s ≡ true
      → is_canonical d t ≡ true
      → d.parse s ≡ some m
      → d.parse t ≡ some n
      → m < n
      → lex_lt s t ≡ true

later_by_one :
    (d : UnitDates) (previous next : Units) (o : Option ℕ)
    → InOrder d
    → d.parse previous ≡ o
    → one_later d o ≡ some next
    → is_canonical d previous ≡ true
    → is_canonical d next ≡ true
    → lex_lt previous next ≡ true
later_by_one d previous next none k e h a b = let bad : ⊥ = cc in absurd bad
later_by_one d previous next (some ms) k e h a b =
    k.ordered previous next ms (ms + 1) a b e (k.parsed (ms + 1) next h) (omega arith)

decided :
    (refused earlier : Bool) (now next : Units) (o : Option Units)
    → (if refused then none else if earlier then some now else o) ≡ some next
    → (refused ≡ false)
      × (((earlier ≡ true) × (now ≡ next)) ⊎ ((earlier ≡ false) × (o ≡ some next)))
decided true earlier now next o h = let bad : ⊥ = cc in absurd bad
decided false true now next o h = (refl, inl (refl, some_injective h))
decided false false now next o h = (refl, inr (refl, h))

-- The time of an update comes after that of the update before it, unless it leaves the years with
-- four digits.
pub next_policy_updated_at-later :
    (d : UnitDates) (server_now previous next : Units)
    → InOrder d
    → next_policy_updated_at d server_now (some previous) ≡ some next
    → is_canonical d next ≡ true
    → lex_lt previous next ≡ true
unfolding next_policy_updated_at
next_policy_updated_at-later d server_now previous next k h b =
    let refused = not (is_canonical d server_now) || not (is_canonical d previous) in
    let (accepted, cases) =
      decided refused (lex_lt previous server_now) server_now next (one_later d (d.parse previous))
        h in
    let previous_is : is_canonical d previous ≡ true = ground arith in
    elim cases [
      | inl (earlier, same_now) ↦ sym (ap (lex_lt previous) same_now) ∙ earlier
      | inr (_, after_one) ↦
          later_by_one d previous next (d.parse previous) k refl after_one previous_is b
    ]
