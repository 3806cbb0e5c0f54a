-- ===== src/Runners/Liveness.antt =====
-- src/domain/runners/liveness.ts: what a heartbeat says of a runner.
use nexusos_agentic.Base.{
  ℕ, ◌+◌, ◌-◌, ◌≡◌, ◌≤◌, ◌<◌, ◌↔◌, ◌≢◌, inl, inr, str_eq, eq_iff, Option-cases, refl, String,
  Option, none, some, arith, ltb, if◌then◌else◌,
}
use nexusos_agentic.Runtime.{Dates}

pub data Liveness : Type 0 where
  revoked pending online stale offline : Liveness

pub data RunnerStatus : Type 0 where
  runner_active runner_revoked : RunnerStatus

-- `Math.max(0, nowMs - Date.parse(lastSeenAt))` is the truncated difference; NaN is never young.
unfoldable pub by_age : ℕ → Option ℕ → Liveness
by_age now_ms none = offline
by_age now_ms (some seen) =
    if ltb (now_ms - seen) 90000
    then online
    else if ltb (now_ms - seen) 600000
    then stale
    else offline

-- `!lastSeenAt` holds of `undefined` and of the empty text.
unfoldable pub by_last_seen : Dates → Option String → ℕ → Liveness
unfolding by_age
by_last_seen d none now_ms = pending
by_last_seen d (some seen_at) now_ms =
    if str_eq seen_at "" then pending else by_age now_ms (d.parse seen_at)

unfoldable pub derive_runner_liveness : Dates → RunnerStatus → Option String → ℕ → Liveness
unfolding by_last_seen
derive_runner_liveness d runner_revoked last_seen now_ms = revoked
derive_runner_liveness d runner_active last_seen now_ms = by_last_seen d last_seen now_ms

-- How far a runner that was seen once has fallen silent.
abbrev pub silence : Liveness → ℕ
silence online = 0
silence stale = 1
silence _ = 2

-- With no new heartbeat a runner only falls more silent as time passes: online, then stale, then
-- offline.
pub silence_mono :
    (d : Dates) (s : RunnerStatus) (last_seen : Option String) (early late : ℕ)
    → early ≤ late
    → silence (derive_runner_liveness d s last_seen early)
      ≤ silence (derive_runner_liveness d s last_seen late)
unfolding derive_runner_liveness
silence_mono d runner_revoked l early late h = omega arith
silence_mono d runner_active none early late h = omega arith
silence_mono d runner_active (some at) early late h = elim (Option-cases (d.parse at)) [
  | inl e ↦ ground arith
  | inr (seen, e) ↦ ground arith
]

-- An active runner is online exactly when it has a heartbeat that is less than 90 seconds old; one
-- from the future counts as just seen.
pub online_iff :
    (d : Dates) (s : RunnerStatus) (last_seen : Option String) (now : ℕ)
    → (derive_runner_liveness d s last_seen now ≡ online) ↔ (
        (s ≡ runner_active)
        × ((at : String) × (seen : ℕ) × (last_seen ≡ some at)
            × (at ≢ "")
            × (d.parse at ≡ some seen)
            × (now < seen + 90000)))
unfolding derive_runner_liveness
online_iff d runner_revoked l now = ((λ h. cc), (λ h. cc (h.0)))
online_iff d runner_active none now = ((λ h. cc), (λ h. ground arith))
online_iff d runner_active (some at) now = elim (Option-cases (d.parse at)) [
  | inl e ↦ ((λ h. ground (arith, eq_iff at "")), (λ h. ground (arith, eq_iff at "")))
  | inr (seen, e) ↦ (
    (λ h. (refl, (at, seen, refl, ground (arith, eq_iff at ""), e, ground (arith, eq_iff at "")))),
    (λ h. ground (arith, eq_iff at "")),
  )
]
